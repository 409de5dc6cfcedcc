-- ===== src/Capture/Tally/Outcome.antt =====
-- src/export.rs: the sink over its rows, against the sums of Tally.
use sov_vault.Base.{
  ℕ, ◌≡◌, ◌⊎◌, ◌∙◌, refl, sym, ap, inl, inr, List, [], ◌∷◌, Option, none, some, length, arith,
  Option-cases, Bool-cases,
}
use sov_vault.Matcher.Types.{WalRecord}
use sov_vault.Query.{RecordRow}
use sov_vault.Reassembly.Steps.{◌>>=◌}
use sov_vault.Capture.{
  PcapStats, BpfFilter, matches_summary, matches_record, orig_of, packet_of, synthesize,
  WalResolver, PcapPacket, PcapSink, add64, count_filtered, count_unresolved, write, keep_record,
  record_row, record_all, export_rows, resolver,
}
use sov_vault.Capture.Cache.{IsCached, resolver-IsCached, load-IsCached}
use sov_vault.Capture.Tally.{
  Verdict, dropped, lost, kept, incl, orig, tally_on, no_stats, FitsStats, one, small,
  tally_on-FitsStats, tally_on-nil, tally_on-one, kept_stats, judge, verdict, verdicts, put,
  put_all, outcome,
}

module _ {P W : Type 0} (files : List (ℕ × P)) (open_file : P → Option (List ℕ))
    (try_decode : List ℕ → Option WalRecord) (write_packet : PcapPacket → W → Option W)
    (filter : BpfFilter) where
  abbrev Cached : WalResolver P → Type 0
  Cached r = IsCached files open_file try_decode write_packet r

  abbrev step : RecordRow → PcapSink P W → Option (PcapSink P W)
  step = record_row files open_file try_decode write_packet filter

  -- A row that the sink takes in.
  Taken : RecordRow → PcapSink P W → Verdict → PcapSink P W → Type 0
  Taken row s v s' =
      (put files open_file try_decode write_packet filter v s.writer ≡ some s'.writer)
      × (step row s ≡ some s')
      × (s'.stats ≡ tally_on s.stats (one v))
      × Cached s'.wal

  Stepped : RecordRow → PcapSink P W → Type 0
  Stepped row s =
      ((verdict files open_file try_decode write_packet filter row ≡ none) × (step row s ≡ none))
      ⊎ ((v : Verdict) × (verdict files open_file try_decode write_packet filter row ≡ some v)
          × (((put files open_file try_decode write_packet filter v s.writer ≡ none)
                × (step row s ≡ none))
              ⊎ ((s' : PcapSink P W) × Taken row s v s')))

  dropped_lem :
      (s : PcapSink P W)
      → FitsStats s.stats
      → (count_filtered files open_file try_decode write_packet s).stats
        ≡ tally_on s.stats (one dropped)
  unfolding count_filtered tally_on add64 incl orig
  dropped_lem s f =
      let st = s.stats in
      rw
        (
          small st.packets f.packets,
          small st.unresolved f.unresolved,
          small st.incl_bytes f.incl_bytes,
          small st.orig_bytes f.orig_bytes,
        )
        refl

  lost_lem :
      (s : PcapSink P W)
      → FitsStats s.stats
      → (count_unresolved files open_file try_decode write_packet s).stats
        ≡ tally_on s.stats (one lost)
  unfolding count_unresolved tally_on add64 incl orig
  lost_lem s f =
      let st = s.stats in
      rw
        (
          small st.packets f.packets,
          small st.filtered f.filtered,
          small st.incl_bytes f.incl_bytes,
          small st.orig_bytes f.orig_bytes,
        )
        refl

  write_lem :
      (rec : WalRecord) (s : PcapSink P W)
      → FitsStats s.stats
      → ((write_packet (packet_of rec) s.writer ≡ none)
          × (write files open_file try_decode write_packet rec s ≡ none))
        ⊎ ((s' : PcapSink P W) × (write_packet (packet_of rec) s.writer ≡ some s'.writer)
            × (write files open_file try_decode write_packet rec s ≡ some s')
            × (s'.stats ≡ tally_on s.stats (one (kept rec)))
            × (s'.wal ≡ s.wal))
  unfolding write tally_on add64 packet_of incl orig
  write_lem rec s f =
      let st = s.stats in
      elim (Option-cases (write_packet (packet_of rec) s.writer)) [
        | inl h ↦ inl (h, rw (write, h) refl)
        | inr (w, h) ↦ inr (
          record s {
            writer = w;
            stats = record st {
              packets = add64 files open_file try_decode write_packet st.packets 1;
              incl_bytes =
                  add64 files open_file try_decode write_packet st.incl_bytes
                    (length (synthesize rec));
              orig_bytes =
                  add64 files open_file try_decode write_packet st.orig_bytes (orig_of rec);
            };
          },
          h,
          rw (write, h) refl,
          kept_stats st (length (synthesize rec)) (orig_of rec) f,
          refl,
        )
      ]

  keep_lem :
      (rec : Option WalRecord) (s : PcapSink P W)
      → FitsStats s.stats
      → ((put files open_file try_decode write_packet filter
              (judge files open_file try_decode write_packet filter rec)
              s.writer
            ≡ none)
          × (keep_record files open_file try_decode write_packet filter rec s ≡ none))
        ⊎ ((s' : PcapSink P W) × (put files open_file try_decode write_packet filter
                (judge files open_file try_decode write_packet filter rec)
                s.writer
              ≡ some s'.writer)
            × (keep_record files open_file try_decode write_packet filter rec s ≡ some s')
            × (s'.stats
                ≡ tally_on s.stats (one (judge files open_file try_decode write_packet filter rec)))
            × (s'.wal ≡ s.wal))
  unfolding keep_record judge put count_unresolved count_filtered
  keep_lem none s f =
      inr
        (count_unresolved files open_file try_decode write_packet s, refl, refl, lost_lem s f, refl)
  keep_lem (some rec) s f = elim (Bool-cases (matches_record filter rec)) [
    | inl wanted ↦ rw (judge, keep_record, wanted) (write_lem rec s f)
    | inr other ↦ inr (
      count_filtered files open_file try_decode write_packet s,
      rw (judge, other) refl,
      rw (keep_record, other) refl,
      rw (judge, other) (dropped_lem s f),
      refl,
    )
  ]

  record_row-Stepped :
      (row : RecordRow) (s : PcapSink P W) → Cached s.wal → FitsStats s.stats → Stepped row s
  unfolding Stepped Taken record_row verdict put count_filtered
  record_row-Stepped row s c f = elim (Bool-cases (matches_summary filter row.summary)) [
    | inr other ↦ inr (
      dropped,
      rw (verdict, other) refl,
      inr (
        count_filtered files open_file try_decode write_packet s,
        (refl, rw (record_row, other) refl, dropped_lem s f, c),
      ),
    )
    | inl wanted ↦
        elim (load-IsCached files open_file try_decode write_packet row.packet_idx s.wal c) [
          | inl (e, h) ↦ inl (rw (verdict, wanted, e) refl, rw (record_row, wanted, h) refl)
          | inr (rec, r, e, h, c') ↦ inr (
            judge files open_file try_decode write_packet filter rec,
            rw (verdict, wanted, e) refl,
            elim (keep_lem rec (record s { wal = r }) f) [
              | inl (p, q) ↦ inl (p, rw (record_row, wanted, h) q)
              | inr (s', p, q, st, w) ↦ inr (s', (p, rw (record_row, wanted, h) q, st, rw w c'))
            ],
          )
        ]
  ]

  outcome-stop :
      (row : RecordRow) (rows : List RecordRow) (v : Verdict) (w : W) (st : PcapStats)
      → verdict files open_file try_decode write_packet filter row ≡ some v
      → put files open_file try_decode write_packet filter v w ≡ none
      → outcome files open_file try_decode write_packet filter (row ∷ rows) w st ≡ none
  unfolding outcome verdicts put_all
  outcome-stop row rows v w st e p =
      elim (Option-cases (verdicts files open_file try_decode write_packet filter rows)) [
        | inl h ↦ rw (outcome, verdicts, e, h) refl
        | inr (vs, h) ↦ rw (outcome, verdicts, e, h, put_all, p) refl
      ]

  outcome-go :
      (row : RecordRow) (rows : List RecordRow) (v : Verdict) (w w' : W) (st : PcapStats)
      → verdict files open_file try_decode write_packet filter row ≡ some v
      → put files open_file try_decode write_packet filter v w ≡ some w'
      → outcome files open_file try_decode write_packet filter rows w' (tally_on st (one v))
        ≡ outcome files open_file try_decode write_packet filter (row ∷ rows) w st
  unfolding outcome verdicts put_all
  outcome-go row rows v w w' st e p =
      elim (Option-cases (verdicts files open_file try_decode write_packet filter rows)) [
        | inl h ↦ rw (outcome, verdicts, e, h) refl
        | inr (vs, h) ↦
            elim (Option-cases (put_all files open_file try_decode write_packet filter vs w')) [
              | inl g ↦ rw (outcome, verdicts, e, h, put_all, p, g) refl
              | inr (end, g) ↦
                  rw (outcome, verdicts, e, h, put_all, p, g)
                    (ap (λ t. some (end, t)) (tally_on-one st v vs))
            ]
      ]

  record_all-outcome :
      (rows : List RecordRow) (s : PcapSink P W)
      → Cached s.wal
      → FitsStats s.stats
      → (do
        s' ← record_all files open_file try_decode write_packet filter rows s
        some (s'.writer, s'.stats))
        ≡ outcome files open_file try_decode write_packet filter rows s.writer s.stats
  unfolding record_all outcome verdicts put_all Stepped Taken
  record_all-outcome [] s c f = rw (tally_on-nil s.stats f) refl
  record_all-outcome (row ∷ rows) s c f = elim (record_row-Stepped row s c f) [
    | inl (v, h) ↦ rw (record_all, outcome, verdicts, v, h) refl
    | inr (v, e, inl (p, h)) ↦
        rw (record_all, h) (sym (outcome-stop row rows v s.writer s.stats e p))
    | inr (v, e, inr (s', (p, h, st, c'))) ↦
        rw (record_all, h)
          (record_all-outcome rows s' c' (rw st (tally_on-FitsStats s.stats (one v)))
            ∙ ap (outcome files open_file try_decode write_packet filter rows s'.writer) st
            ∙ outcome-go row rows v s.writer s'.writer s.stats e p)
  ]

  -- The export of any rows, with its caches of paths and open files, ends with an error exactly
  -- when a file that it has to read cannot be opened or the writer refuses a packet. Otherwise the
  -- writer got, in order, the packets of the rows that the filter keeps by summary and by record
  -- and that are found, and the counters are, modulo 2^64, the number of these, that of the rows
  -- that the filter drops, that of the rows not found, the sum of the bytes written and that of
  -- the lengths on the line.
  pub export_rows-outcome :
      (rows : List RecordRow) (w : W)
      → export_rows files open_file try_decode write_packet filter rows w
        ≡ outcome files open_file try_decode write_packet filter rows w no_stats
  unfolding export_rows
  export_rows-outcome rows w =
      record_all-outcome rows (record { writer = w; wal = resolver; stats = no_stats })
        (resolver-IsCached files open_file try_decode write_packet)
        (record {
          packets = omega arith;
          filtered = omega arith;
          unresolved = omega arith;
          incl_bytes = omega arith;
          orig_bytes = omega arith;
        })
