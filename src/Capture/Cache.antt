-- ===== src/Capture/Cache.antt =====
-- src/export.rs: the reader's caches of paths and files, against reading without them.
use sov_vault.Base.{
  ℕ, ◌/◌, ◌%◌, ◌^◌, ◌≡◌, ◌⊎◌, ◌∙◌, refl, ap, inl, inr, List, Option, none, some, Option-cases,
  arith,
}
use sov_vault.Id
use sov_vault.Map
use sov_vault.Map.{nat_eq}
use sov_vault.Map.Laws.{get-insert_cases}
use sov_vault.Matcher.Types.{WalRecord}
use sov_vault.Reassembly.Steps.{◌>>=◌}
use sov_vault.Capture.{
  WalResolver, resolver, PcapPacket, file_path, path, open_path, handle, read_record, load,
}

module _ {P W : Type 0} (files : List (ℕ × P)) (open_file : P → Option (List ℕ))
    (try_decode : List ℕ → Option WalRecord) (write_packet : PcapPacket → W → Option W) where
  abbrev the_path : ℕ → Option P
  the_path = file_path files open_file try_decode write_packet

  abbrev the_file : ℕ → Option (List ℕ)
  the_file id = open_path files open_file try_decode write_packet (the_path id)

  -- What is read where the file is found and opened each time.
  unfoldable pub read_back : ℕ → Option (Option WalRecord)
  unfolding Id.decode
  read_back packet_idx =
      let at = Id.decode packet_idx in
      do f ← the_file (at.0); some (read_record files open_file try_decode write_packet (at.1) f)

  -- The caches hold what the ledger and the files would give.
  pub record IsCached (r : WalResolver P) : Type 0 where
    pub paths : (id : ℕ) (p : Option P) → Map.get id r.paths ≡ some p → the_path id ≡ p
    pub handles : (id : ℕ) (f : List ℕ) → Map.get id r.handles ≡ some f → the_file id ≡ some f

  pub resolver-IsCached : IsCached resolver
  unfolding resolver Map.get
  resolver-IsCached = record {
    paths = λ id p h. absurd (ground arith);
    handles = λ id f h. absurd (ground arith);
  }

  path-IsCached :
      (id : ℕ) (r : WalResolver P)
      → IsCached r
      → (r' : WalResolver P) × (path files open_file try_decode write_packet id r
          ≡ (the_path id, r'))
        × IsCached r'
  unfolding path
  path-IsCached id r c = elim (Option-cases (Map.get id r.paths)) [
    | inr (p, h) ↦ (r, rw (path, h, c.paths id p h) refl, c)
    | inl h ↦ (
      record r { paths = Map.insert id (the_path id) r.paths },
      rw (path, h) refl,
      record {
        paths = λ j q g. elim (get-insert_cases j id (the_path id) q r.paths g) [
          | inl (same, v) ↦ ap the_path same ∙ v
          | inr old ↦ c.paths j q old
        ];
        handles = c.handles;
      },
    )
  ]

  handle-IsCached :
      (id : ℕ) (r : WalResolver P)
      → IsCached r
      → ((the_file id ≡ none) × (handle files open_file try_decode write_packet id r ≡ none))
        ⊎ ((f : List ℕ) × (r' : WalResolver P) × (the_file id ≡ some f)
            × (handle files open_file try_decode write_packet id r ≡ some (f, r'))
            × IsCached r')
  unfolding handle
  handle-IsCached id r c = elim (Option-cases (Map.get id r.handles)) [
    | inr (f, h) ↦ inr (f, r, c.handles id f h, rw (handle, h) refl, c)
    | inl h ↦
        let (r', found, c') = path-IsCached id r c in
        elim (Option-cases (the_file id)) [
          | inl none_open ↦ inl (none_open, rw (handle, h, found, none_open) refl)
          | inr (f, opened) ↦ inr (
            f,
            record r' { handles = Map.insert id f r'.handles },
            opened,
            rw (handle, h, found, opened) refl,
            record {
              paths = c'.paths;
              handles = λ j g e. elim (get-insert_cases j id f g r'.handles e) [
                | inl (same, v) ↦ ap the_file same ∙ opened ∙ ap some v
                | inr old ↦ c'.handles j g old
              ];
            },
          )
        ]
  ]

  -- A read through the caches fails when the read without them fails, and gives its result.
  pub load-IsCached :
      (packet_idx : ℕ) (r : WalResolver P)
      → IsCached r
      → ((read_back packet_idx ≡ none)
          × (load files open_file try_decode write_packet packet_idx r ≡ none))
        ⊎ ((rec : Option WalRecord) × (r' : WalResolver P) × (read_back packet_idx ≡ some rec)
            × (load files open_file try_decode write_packet packet_idx r ≡ some (rec, r'))
            × IsCached r')
  unfolding load read_back
  load-IsCached packet_idx r c = elim (handle-IsCached (packet_idx / 2 ^ 32 % 2 ^ 32) r c) [
    | inl (e, h) ↦ inl (rw (read_back, e) refl, rw (load, h) refl)
    | inr (f, r', e, h, c') ↦ inr (
      read_record files open_file try_decode write_packet (packet_idx % 2 ^ 32) f,
      r',
      rw (read_back, e) refl,
      rw (load, h) refl,
      c',
    )
  ]
