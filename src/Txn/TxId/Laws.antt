-- ===== src/Txn/TxId/Laws.antt =====
-- Ids grow, and a recovered allocator is ahead of every id that was issued before the crash.
use rgraph.Prelude.{
  ◌-◌, ℕ, suc, ◌+◌, ◌^◌, ◌<◌, ◌≡◌, ◌≢◌, some, List, ◌++◌, length-append, drop, take_front, ltb,
  if◌then◌else◌, arith,
}
use rgraph.Prelude.Bytes.{IsU64, le_bytes, length-le_bytes, from_le_bytes-le_bytes}
use rgraph.Txn.TxId.{
  TxIdAllocator, allocate_loop, allocate, peek_next, persist, recover, recovery_bump,
}

-- From any counter the loop ends after two rounds at most, and returns what `allocate` does.
pub allocate_loop-eq_allocate :
    (fuel : ℕ) (a : TxIdAllocator)
    → IsU64 a.counter
    → allocate_loop (suc (suc fuel)) a ≡ some (allocate a)
unfolding allocate_loop allocate
allocate_loop-eq_allocate fuel a h = ground arith

-- `allocate` returns the id that `peek_next` announced, which is never 0, and from any counter
-- but the last one of 64 bits the next announcement is larger by one.
pub allocate-peek_next :
    (a : TxIdAllocator)
    → a.counter < 2 ^ 64 - 1
    → ((allocate a).0 ≡ peek_next a)
      × ((allocate a).0 ≢ 0)
      × (peek_next (allocate a).1 ≡ suc (allocate a).0)
unfolding allocate peek_next
allocate-peek_next a h = ground arith

recover-le_bytes :
    (c : ℕ) (rest : List ℕ)
    → IsU64 c
    → recover (le_bytes 8 c ++ rest)
      ≡ some
          (record { counter = if ltb (c + recovery_bump) (2 ^ 64) then c + recovery_bump else 1 })
unfolding recover
recover-le_bytes c rest h = ground (
  arith,
  length-append (le_bytes 8 c) rest,
  length-le_bytes 8 c,
  take_front 8 (le_bytes 8 c) rest (length-le_bytes 8 c),
  from_le_bytes-le_bytes 8 c h,
)

persist-eq_some :
    (a : TxIdAllocator) (page page' : List ℕ)
    → persist a page ≡ some page'
    → page' ≡ le_bytes 8 a.counter ++ drop 8 page
unfolding persist
persist-eq_some a page page' e = ground arith

-- A counter that was persisted into a page is recovered ahead of itself by the bump. Where that
-- overflows 64 bits, the recovered allocator starts again at 1.
pub recover-persist :
    (a : TxIdAllocator) (page page' : List ℕ)
    → IsU64 a.counter
    → persist a page ≡ some page'
    → recover page'
      ≡ some (record {
        counter = if ltb (a.counter + recovery_bump) (2 ^ 64) then a.counter + recovery_bump else 1;
      })
recover-persist a page page' h e =
    rw (persist-eq_some a page page' e) (recover-le_bytes a.counter (drop 8 page) h)
