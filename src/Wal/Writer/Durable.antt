-- ===== src/Wal/Writer/Durable.antt =====
-- What the writer makes durable.
use rgraph.Prelude.{
  ℕ, ◌+◌, ◌^◌, ◌<◌, ◌≡◌, ◌≢◌, refl, ap, ◌∙◌, sym, true, Option, none, some, List, [], ◌∷◌, ◌++◌,
  append-nil, append_assoc, length, All, ltb, ◌==◌, ==→eq, Bool-cases, inl, inr, arith,
}
use rgraph.Wal.Record.{Checksums, WalRecord, encode, set_lsn, seal}
use rgraph.Wal.Record.RoundTrip.{IsRecord}
use rgraph.Wal.Record.Torn.{seal-IsRecord}
use rgraph.Wal.Segment.Scan.{log_bytes}
use rgraph.Wal.Writer.{
  IoResult, ok, err, FileHandle, WalWriter, after_sync, after_write, after_len, flush, put,
  after_room, append_sealed, append, buffer_size,
}

-- What the writer relies on of a file: its contents, and the part of them that would survive a
-- crash. A write at the end that succeeds appends, and a sync that succeeds makes the contents
-- durable.
pub record FileLaws {H E : Type 0} (io : FileHandle H E) : Type 0 where
  pub contents : H → List ℕ
  pub durable : H → List ℕ
  pub len-ok : (h : H) (n : ℕ) → io.len h ≡ ok n → n ≡ length (contents h)
  pub write_at-none :
      (bytes : List ℕ) (h : H)
      → (io.write_at bytes (length (contents h)) h).0 ≡ none
      → contents (io.write_at bytes (length (contents h)) h).1 ≡ contents h ++ bytes
  pub sync_data-none :
      (h : H)
      → (io.sync_data h).0 ≡ none
      → (contents (io.sync_data h).1 ≡ contents h) × (durable (io.sync_data h).1 ≡ contents h)

some-ne-none : {E : Type 0} (e : E) → some e ≢ none
some-ne-none e h = cc h

no_bytes : (xs : List ℕ) → (length xs == 0) ≡ true → xs ≡ []
no_bytes [] h = refl
no_bytes (x ∷ xs) h = absurd (omega (arith, ==→eq (length (x ∷ xs)) 0 h))

module _ {H E : Type 0} (io : FileHandle H E) (laws : FileLaws io) where
  -- The file and the buffer together are the log of some records, and the file is durable.
  pub record IsWriting (sums : Checksums) (w : WalWriter H) (rs : List WalRecord) : Type 0 where
    pub layout : laws.contents w.segment_handle ++ w.buffer ≡ log_bytes rs
    pub records : All (IsRecord sums) rs
    pub clean : laws.durable w.segment_handle ≡ laws.contents w.segment_handle

  pub record IsFlushed (w : WalWriter H) (log : List ℕ) : Type 0 where
    pub emptied : w.buffer ≡ []
    pub contents_now : laws.contents w.segment_handle ≡ log
    pub durable_now : laws.durable w.segment_handle ≡ log

  after_sync-IsFlushed :
      (p : Option E × H) (w : WalWriter H) (log : List ℕ)
      → (after_sync io p w).0 ≡ none
      → (p.0 ≡ none → (laws.contents p.1 ≡ log) × (laws.durable p.1 ≡ log))
      → IsFlushed (after_sync io p w).1 log
  unfolding after_sync
  after_sync-IsFlushed (none, h) w log done wrote = record {
    emptied = refl;
    contents_now = (wrote refl).0;
    durable_now = (wrote refl).1;
  }
  after_sync-IsFlushed (some e, h) w log done wrote = absurd (some-ne-none e done)

  after_write-IsFlushed :
      (p : Option E × H) (w : WalWriter H) (log : List ℕ)
      → (after_write io p w).0 ≡ none
      → (p.0 ≡ none → laws.contents p.1 ≡ log)
      → IsFlushed (after_write io p w).1 log
  unfolding after_write
  after_write-IsFlushed (none, h) w log done wrote =
      after_sync-IsFlushed (io.sync_data h) w log done λ synced.
        let (kept, made) = laws.sync_data-none h synced in (kept ∙ wrote refl, made ∙ wrote refl)
  after_write-IsFlushed (some e, h) w log done wrote = absurd (some-ne-none e done)

  after_len-IsFlushed :
      (answer : IoResult E ℕ) (w : WalWriter H)
      → io.len w.segment_handle ≡ answer
      → (after_len io answer w).0 ≡ none
      → IsFlushed (after_len io answer w).1 (laws.contents w.segment_handle ++ w.buffer)
  unfolding after_len
  after_len-IsFlushed (err e) w asked done = absurd (some-ne-none e done)
  after_len-IsFlushed (ok n) w asked done =
      after_write-IsFlushed (io.write_at w.buffer n w.segment_handle) w _ done
        (rw (laws.len-ok w.segment_handle n asked) (laws.write_at-none w.buffer w.segment_handle))

  -- A flush that reports no error empties the buffer into the file, and makes the file durable.
  flush-IsFlushed :
      (w : WalWriter H)
      → laws.durable w.segment_handle ≡ laws.contents w.segment_handle
      → (flush io w).0 ≡ none
      → IsFlushed (flush io w).1 (laws.contents w.segment_handle ++ w.buffer)
  unfolding flush
  flush-IsFlushed w clean done = elim (Bool-cases (length w.buffer == 0)) [
    | inl idle ↦
        let same : laws.contents w.segment_handle ≡ laws.contents w.segment_handle ++ w.buffer =
          sym (
            ap (λ bs. laws.contents w.segment_handle ++ bs) (no_bytes w.buffer idle)
            ∙ append-nil (laws.contents w.segment_handle)) in
        rw (flush, idle)
          (record {
            emptied = no_bytes w.buffer idle;
            contents_now = same;
            durable_now = clean ∙ same;
          })
    | inr busy ↦
        rw (flush, busy)
          (after_len-IsFlushed (io.len w.segment_handle) w refl (rw (flush, busy) at done))
  ]

-- A record whose fields fit their machine types, and its payload 32 bits.
pub record Fits (r : WalRecord) : Type 0 where
  pub txid : r.txid < 2 ^ 64
  pub prev_lsn : r.prev_lsn < 2 ^ 64
  pub timestamp : r.timestamp < 2 ^ 64
  pub payload : length r.payload < 2 ^ 32

pub set_lsn-IsRecord :
    (sums : Checksums) (r : WalRecord) (lsn : ℕ)
    → Fits r
    → lsn < 2 ^ 64
    → IsRecord sums (set_lsn sums lsn r)
unfolding set_lsn
set_lsn-IsRecord sums r lsn fits low =
    seal-IsRecord sums (record r { lsn = lsn }) fits.txid low fits.prev_lsn fits.timestamp
      fits.payload

lsn-set_lsn : (sums : Checksums) (r : WalRecord) (lsn : ℕ) → (set_lsn sums lsn r).lsn ≡ lsn
unfolding set_lsn seal
lsn-set_lsn sums r lsn = refl

module _ {H E : Type 0} (io : FileHandle H E) (laws : FileLaws io) (sums : Checksums) where
  -- After a flush that reports no error, the file holds the whole log, and all of it is durable.
  pub flush-IsWriting :
      (w : WalWriter H) (rs : List WalRecord)
      → IsWriting io laws sums w rs
      → (flush io w).0 ≡ none
      → IsWriting io laws sums (flush io w).1 rs
        × (laws.durable (flush io w).1.segment_handle ≡ log_bytes rs)
  flush-IsWriting w rs v done =
      let f = flush-IsFlushed io laws w v.clean done in
      (
        record {
          layout = rw (f.emptied) (append-nil _ ∙ f.contents_now ∙ v.layout);
          records = v.records;
          clean = f.durable_now ∙ sym f.contents_now;
        },
        f.durable_now ∙ v.layout,
      )

  log_bytes-snoc :
      (rs : List WalRecord) (r : WalRecord) → log_bytes (rs ++ r ∷ []) ≡ log_bytes rs ++ encode r
  log_bytes-snoc [] r = append-nil (encode r)
  log_bytes-snoc (q ∷ rs) r =
      rw (log_bytes-snoc rs r) (sym (append_assoc (encode q) (log_bytes rs) (encode r)))

  All-snoc :
      (rs : List WalRecord) (r : WalRecord)
      → All (IsRecord sums) rs
      → IsRecord sums r
      → All (IsRecord sums) (rs ++ r ∷ [])
  All-snoc [] r vs v = (v, tt)
  All-snoc (q ∷ rs) r (u, vs) v = (u, All-snoc rs r vs v)

  put-IsWriting :
      (r : WalRecord) (w : WalWriter H) (rs : List WalRecord)
      → IsWriting io laws sums w rs
      → IsRecord sums r
      → IsWriting io laws sums (put io r w).1 (rs ++ r ∷ [])
  unfolding put
  put-IsWriting r w rs v sealed = record {
    layout =
        sym (append_assoc (laws.contents w.segment_handle) w.buffer (encode r))
        ∙ ap (λ bs. bs ++ encode r) v.layout
        ∙ sym (log_bytes-snoc rs r);
    records = All-snoc rs r v.records sealed;
    clean = v.clean;
  }

  put-ok : (r : WalRecord) (w : WalWriter H) (lsn : ℕ) → (put io r w).0 ≡ ok lsn → lsn ≡ r.lsn
  unfolding put
  put-ok r w lsn h = cc h

  after_room-IsWriting :
      (r : WalRecord) (p : Option E × WalWriter H) (rs : List WalRecord) (lsn : ℕ)
      → (p.0 ≡ none → IsWriting io laws sums p.1 rs)
      → IsRecord sums r
      → (after_room io r p).0 ≡ ok lsn
      → IsWriting io laws sums (after_room io r p).1 (rs ++ r ∷ []) × (lsn ≡ r.lsn)
  unfolding after_room
  after_room-IsWriting r (some e, w) rs lsn v sealed done = cc done
  after_room-IsWriting r (none, w) rs lsn v sealed done =
      elim (Bool-cases (ltb buffer_size (length (encode r)))) [
        | inl large ↦ cc (rw (after_room, large) at done)
        | inr fits ↦
            rw (after_room, fits)
              (put-IsWriting r w rs (v refl) sealed, put-ok r w lsn (rw (after_room, fits) at done))
      ]

  append_sealed-IsWriting :
      (r : WalRecord) (w : WalWriter H) (rs : List WalRecord) (lsn : ℕ)
      → IsWriting io laws sums w rs
      → IsRecord sums r
      → (append_sealed io r w).0 ≡ ok lsn
      → IsWriting io laws sums (append_sealed io r w).1 (rs ++ r ∷ []) × (lsn ≡ r.lsn)
  unfolding append_sealed
  append_sealed-IsWriting r w rs lsn v sealed done =
      elim (Bool-cases (ltb buffer_size (length w.buffer + length (encode r)))) [
        | inl full ↦
            rw (append_sealed, full)
              (after_room-IsWriting r (flush io w) rs lsn (λ h. (flush-IsWriting w rs v h).0) sealed
                (rw (append_sealed, full) at done))
        | inr room ↦
            rw (append_sealed, room)
              (put-IsWriting r w rs v sealed, put-ok r w lsn (rw (append_sealed, room) at done))
      ]

  -- If the writer's file and buffer hold a log of well-formed records, and the file is durable,
  -- then an append that returns an LSN puts the record, with that LSN, behind the records of the
  -- log, be it in the buffer or after a flush of it; the LSN is the one the writer stood at. The
  -- fields of the record fit their machine types, and the LSN 64 bits; the file obeys the laws of
  -- a file.
  pub append-IsWriting :
      (r : WalRecord) (w : WalWriter H) (rs : List WalRecord) (lsn : ℕ)
      → IsWriting io laws sums w rs
      → Fits r
      → w.current_lsn < 2 ^ 64
      → (append io sums r w).0 ≡ ok lsn
      → IsWriting io laws sums (append io sums r w).1 (rs ++ set_lsn sums lsn r ∷ [])
        × (lsn ≡ w.current_lsn)
  unfolding append
  append-IsWriting r w rs lsn v fits low done =
      let (v', e) =
        append_sealed-IsWriting (set_lsn sums w.current_lsn r) w rs lsn v
          (set_lsn-IsRecord sums r w.current_lsn fits low) done in
      let e' : lsn ≡ w.current_lsn = e ∙ lsn-set_lsn sums r w.current_lsn in (rw e' v', e')
