-- ===== src/Storage/Page/Insert/Directory.antt =====
-- src/storage/page.rs: the slots that `insert_at` collects, and the directory that it writes.
use rgraph.Prelude.{
  ℕ, zero, suc, ◌+◌, ◌-◌, ◌*◌, ◌≤◌, ◌<◌, ◌≡◌, refl, ap, ◌∙◌, inl, Option, none, some, List, [], ◌∷◌,
  All, length, get_elem?, arith,
}
use rgraph.Prelude.Slices.{slice, write_at, slice_apart, length-write_at}
use rgraph.Storage.Page.{Slot, slot_count, slot_bytes}
use rgraph.Storage.Page.Insert.{collect_slots, write_directory, insert_slot}
use rgraph.Storage.Page.Insert.Written.{copy_from_slice-fits}
use rgraph.Storage.Page.Layout.{
  IsSlot, slot_of, place_of, places_apart, slot_of-write, slot_of-slot_bytes, slot_place-count,
  length-slot_bytes, slot-slot_of,
}

unfoldable pub slots_from : List ℕ → ℕ → ℕ → List Slot
slots_from buf i zero = []
slots_from buf i (suc n) = slot_of i buf ∷ slots_from buf (i + 1) n

pub collect_slots-slots_from :
    (buf : List ℕ) (i n : ℕ)
    → slot_count buf * 4 ≤ 8192
    → i + n ≤ slot_count buf
    → collect_slots buf i n ≡ some (slots_from buf i n)
unfolding collect_slots slots_from
collect_slots-slots_from buf i zero fit h = refl
collect_slots-slots_from buf i (suc n) fit h =
    rw
      (
        slot-slot_of buf i (omega arith) fit,
        collect_slots-slots_from buf (i + 1) n fit (omega arith),
      )
      refl

pub length-slots_from : (buf : List ℕ) (i n : ℕ) → length (slots_from buf i n) ≡ n
unfolding slots_from
length-slots_from buf i zero = refl
length-slots_from buf i (suc n) = omega (arith, length-slots_from buf (i + 1) n)

pub get-slots_from :
    (buf : List ℕ) (i n k : ℕ)
    → k < n
    → get_elem? (slots_from buf i n) k ≡ some (slot_of (i + k) buf)
unfolding slots_from
get-slots_from buf i zero k h = absurd (omega arith)
get-slots_from buf i (suc n) zero h = let e : i + 0 ≡ i = omega arith in rw e refl
get-slots_from buf i (suc n) (suc k) h =
    let e : i + suc k ≡ i + 1 + k = omega arith in
    rw e (get-slots_from buf (i + 1) n k (omega arith))

pub length-insert_slot :
    (pos : ℕ) (s : Slot) (slots : List Slot)
    → pos ≤ length slots
    → length (insert_slot pos s slots) ≡ suc (length slots)
unfolding insert_slot
length-insert_slot zero s slots h = refl
length-insert_slot (suc pos) s [] h = absurd (omega arith)
length-insert_slot (suc pos) s (t ∷ slots) h =
    omega (arith, length-insert_slot pos s slots (omega arith))

pub get_before :
    (pos k : ℕ) (s : Slot) (slots : List Slot)
    → pos ≤ length slots
    → k < pos
    → get_elem? (insert_slot pos s slots) k ≡ get_elem? slots k
unfolding insert_slot
get_before zero k s slots h b = absurd (omega arith)
get_before (suc pos) k s [] h b = absurd (omega arith)
get_before (suc pos) zero s (t ∷ slots) h b = refl
get_before (suc pos) (suc k) s (t ∷ slots) h b =
    get_before pos k s slots (omega arith) (omega arith)

pub get_there :
    (pos : ℕ) (s : Slot) (slots : List Slot)
    → pos ≤ length slots
    → get_elem? (insert_slot pos s slots) pos ≡ some s
unfolding insert_slot
get_there zero s slots h = refl
get_there (suc pos) s [] h = absurd (omega arith)
get_there (suc pos) s (t ∷ slots) h = get_there pos s slots (omega arith)

pub get_behind :
    (pos k : ℕ) (s : Slot) (slots : List Slot)
    → pos ≤ length slots
    → pos ≤ k
    → get_elem? (insert_slot pos s slots) (suc k) ≡ get_elem? slots k
unfolding insert_slot
get_behind zero k s slots h b = refl
get_behind (suc pos) k s [] h b = absurd (omega arith)
get_behind (suc pos) zero s (t ∷ slots) h b = absurd (omega arith)
get_behind (suc pos) (suc k) s (t ∷ slots) h b =
    get_behind pos k s slots (omega arith) (omega arith)

-- The directory that has been written from the slot `i` on
pub record IsWritten (count i : ℕ) (slots : List Slot) (buf b : List ℕ) : Type 0 where
  pub size : length b ≡ 8192
  pub front : (off n : ℕ) → off + n ≤ 8192 - count * 4 → slice off n b ≡ slice off n buf
  pub earlier : (j : ℕ) → j < i → slot_of j b ≡ slot_of j buf
  pub slots_at : (k : ℕ) (s : Slot) → get_elem? slots k ≡ some s → slot_of (i + k) b ≡ s

abbrev given_or : Slot → Option Slot → Slot
given_or d none = d
given_or d (some s) = s

module _ (count : ℕ) (fit : count * 4 ≤ 8192) where
  write_directory-step :
      (i : ℕ) (s : Slot) (slots : List Slot) (buf : List ℕ)
      → i < count
      → length buf ≡ 8192
      → write_directory count i (s ∷ slots) buf
        ≡ write_directory count (i + 1) slots (write_at (place_of i) (slot_bytes s) buf)
  unfolding write_directory
  write_directory-step i s slots buf h size =
      let e : count - 1 - i ≡ count - (i + 1) = omega arith in
      let m = length-slot_bytes s in
      rw
        (
          e,
          slot_place-count count i h fit,
          copy_from_slice-fits (place_of i) (slot_bytes s) buf (omega arith),
        )
        refl

  write_directory_nil : (i : ℕ) (buf : List ℕ) → write_directory count i [] buf ≡ some buf
  unfolding write_directory
  write_directory_nil i buf = refl

  empty_directory : (i : ℕ) (buf : List ℕ) → length buf ≡ 8192 → IsWritten count i [] buf buf
  empty_directory i buf size = record {
    size = size;
    front = λ off n h. refl;
    earlier = λ j h. refl;
    slots_at = λ k s h. absurd (cc h);
  }

  module _ (i : ℕ) (s : Slot) (slots : List Slot) (buf b : List ℕ) (h : i < count)
      (size : length buf ≡ 8192) (word : IsSlot s)
      (w : IsWritten count (i + 1) slots (write_at (place_of i) (slot_bytes s) buf) b) where
    earlier_cons : (j : ℕ) → j < i → slot_of j b ≡ slot_of j buf
    earlier_cons j hj =
        w.earlier j (omega arith)
        ∙ slot_of-write (place_of i) j (slot_bytes s) buf
            (rw (length-slot_bytes s) (places_apart count i j h (omega arith) fit (omega arith)))

    slots_cons : (k : ℕ) (t : Slot) → get_elem? (s ∷ slots) k ≡ some t → slot_of (i + k) b ≡ t
    slots_cons zero t e =
        let here : i + 0 ≡ i = omega arith in
        rw here (
          w.earlier i (omega arith)
          ∙ slot_of-slot_bytes i s buf word (omega arith)
          ∙ ap (given_or s) e)
    slots_cons (suc k) t e =
        let next : i + suc k ≡ i + 1 + k = omega arith in rw next (w.slots_at k t e)

    one_more_slot : IsWritten count i (s ∷ slots) buf b
    one_more_slot = record {
      size = w.size;
      front = λ off n high.
          w.front off n high
          ∙ slice_apart off n (place_of i) (slot_bytes s) buf (inl (omega arith));
      earlier = earlier_cons;
      slots_at = slots_cons;
    }

  pub write_directory-IsWritten :
      (i : ℕ) (slots : List Slot) (buf : List ℕ)
      → length buf ≡ 8192
      → i + length slots ≡ count
      → All IsSlot slots
      → (b : List ℕ) × (write_directory count i slots buf ≡ some b) × IsWritten count i slots buf b
  write_directory-IsWritten i [] buf size all words =
      (buf, write_directory_nil i buf, empty_directory i buf size)
  write_directory-IsWritten i (s ∷ slots) buf size all words =
      let (b, run, w) =
        write_directory-IsWritten (i + 1) slots (write_at (place_of i) (slot_bytes s) buf)
          (length-write_at (place_of i) (slot_bytes s) buf ∙ size) (omega arith) words.1 in
      (
        b,
        write_directory-step i s slots buf (omega arith) size ∙ run,
        one_more_slot i s slots buf b (omega arith) size words.0 w,
      )
