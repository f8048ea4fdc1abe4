-- ===== src/Console/Store/Reads.antt =====
-- A read by cursor on tidy tables.
use solx_core.Prelude.{
  range, ℕ, zero, suc, ◌+◌, ◌-◌, ◌≤◌, min, max, ℤ, true, false, List, [], ◌∷◌, Option,
  if◌then◌else◌, take, leb, ltb, ◌==◌, Text, ◌≡◌, refl, ap, ap₂, inl, inr, ◌∙◌, arith, Bool-cases,
}
use solx_core.Console.Table.{delete, select}
use solx_core.Console.Store.{
  Entry, Tables, meta, logs_to, logs_from, clamp_limit, from_cursor, insert_by_seq, order_by_seq,
  cursor_after, read,
}
use solx_core.Console.Store.Numbering.{seqs, delete-range, delete-range_above}
use solx_core.Console.Store.Tidy.{IsTidy}

abbrev pub numbers : List Entry → List ℕ
numbers [] = []
numbers (e ∷ es) = e.seq ∷ numbers es

numbers-select :
    (a : Text) (from : ℕ) (es : List Entry)
    → numbers (select (logs_from a from) es) ≡ delete (λ i. ltb i from) (seqs a es)
unfolding select delete
numbers-select a from [] = refl
numbers-select a from (e ∷ es) = elim (Bool-cases (logs_to a e)) [
  | inl t ↦ elim (Bool-cases (ltb e.seq from)) [
    | inl u ↦
        let v : leb from e.seq ≡ false = ground arith in rw (t, v, u) (numbers-select a from es)
    | inr u ↦
        let v : leb from e.seq ≡ true = ground arith in
        rw (t, v, u) (ap (◌∷◌ e.seq) (numbers-select a from es))
  ]
  | inr t ↦ rw t (numbers-select a from es)
]

delete-range_below : (s n q : ℕ) → s + n ≤ q → delete (λ i. ltb i q) (range s n) ≡ []
unfolding delete
delete-range_below s zero q le = refl
delete-range_below s (suc n) q le =
    let t : ltb s q ≡ true = ground arith in
    rw t (delete-range_below (suc s) n q (omega (arith, le)))

delete-range-max :
    (s n q : ℕ) → delete (λ i. ltb i q) (range s n) ≡ range (max s q) (s + n - max s q)
delete-range-max s n q = elim (Bool-cases (leb q s)) [
  | inl t ↦
      let top : s ≡ max s q = ground arith in
      let amount : n ≡ s + n - max s q = ground arith in
      delete-range_above s n q (ground arith) ∙ ap₂ range top amount
  | inr t ↦ elim (Bool-cases (leb q (s + n))) [
    | inl u ↦
        let top : q ≡ max s q = ground arith in
        let amount : s + n - q ≡ s + n - max s q = ground arith in
        delete-range s n q (s + n - q) (ground arith) (ground arith) ∙ ap₂ range top amount
    | inr u ↦
        let none_left : 0 ≡ s + n - max s q = ground arith in
        delete-range_below s n q (ground arith) ∙ ap (range (max s q)) none_left
  ]
]

take-range : (n s k : ℕ) → take n (range s k) ≡ range s (min n k)
take-range zero s k = let none_left : 0 ≡ min 0 k = omega arith in ap (range s) none_left
take-range (suc n) s zero =
    let none_left : 0 ≡ min (suc n) 0 = omega arith in ap (range s) none_left
take-range (suc n) s (suc k) =
    let amount : suc (min n k) ≡ min (suc n) (suc k) = omega arith in
    ap (◌∷◌ s) (take-range n (suc s) k) ∙ ap (range s) amount

numbers-take : (n : ℕ) (es : List Entry) → numbers (take n es) ≡ take n (numbers es)
numbers-take zero es = refl
numbers-take (suc n) [] = refl
numbers-take (suc n) (e ∷ es) = ap (◌∷◌ e.seq) (numbers-take n es)

head_is : {x y : ℕ} {xs ys : List ℕ} → x ∷ xs ≡ y ∷ ys → (x ≡ y) × (xs ≡ ys)
head_is h = (cc, cc)

insert_by_seq_first :
    (e : Entry) (es : List Entry) (s k : ℕ)
    → e.seq ≤ s
    → numbers es ≡ range s k
    → insert_by_seq e es ≡ e ∷ es
unfolding insert_by_seq
insert_by_seq_first e [] s k le h = refl
insert_by_seq_first e (d ∷ ds) s zero le h = cc
insert_by_seq_first e (d ∷ ds) s (suc k) le h =
    let first : d.seq ≡ s = (head_is h).0 in
    let t : leb e.seq d.seq ≡ true = ground arith in rw t refl

order_by_seq-range : (es : List Entry) (s k : ℕ) → numbers es ≡ range s k → order_by_seq es ≡ es
unfolding order_by_seq
order_by_seq-range [] s k h = refl
order_by_seq-range (e ∷ es) s zero h = cc
order_by_seq-range (e ∷ es) s (suc k) h =
    let (first, rest) = head_is h in
    ap (insert_by_seq e) (order_by_seq-range es (suc s) k rest)
    ∙ insert_by_seq_first e es (suc s) k (omega (arith, first)) rest

cursor_after-range :
    (from : ℕ) (es : List Entry) (s k : ℕ)
    → numbers es ≡ range s k
    → cursor_after from es ≡ (if k == 0 then from else s + k)
unfolding cursor_after
cursor_after-range from [] s zero h = refl
cursor_after-range from [] s (suc k) h = cc
cursor_after-range from (e ∷ es) s zero h = cc
cursor_after-range from (e ∷ es) s (suc k) h =
    let (first, rest) = head_is h in
    let behind : suc e.seq ≡ suc s = omega (arith, first) in
    let again = cursor_after-range (suc e.seq) es (suc s) k rest in ground (arith, again, behind)

-- The page that a read with a cursor `from` returns: how many numbers, and from which on.
abbrev pub page_start : Text → ℕ → Tables → ℕ
page_start a from t = max (meta a t.consoles).first_seq from

abbrev pub page_size : Text → ℕ → ℤ → Tables → ℕ
page_size a from limit t =
    min (clamp_limit limit) ((meta a t.consoles).next_seq - page_start a from t)

-- On tidy tables a read returns the retained entries from the cursor on, oldest first and without a
-- gap, up to the limit, and its next cursor is behind the last of them, or the cursor itself when
-- there is none.
pub read_lem :
    (a : Text) (cursor : Option ℤ) (limit : ℤ) (t : Tables)
    → IsTidy t
    → (numbers (read a cursor limit t).entries
        ≡ range (page_start a (from_cursor cursor) t) (page_size a (from_cursor cursor) limit t))
      × ((read a cursor limit t).next_cursor ≡ (
          if page_size a (from_cursor cursor) limit t == 0
          then from_cursor cursor
          else page_start a (from_cursor cursor) t + page_size a (from_cursor cursor) limit t))
unfolding read
read_lem a cursor limit t h = (paged, cursor_after-range from _ _ _ paged)
  where
    from : ℕ
    from = from_cursor cursor

    found : List Entry
    found = select (logs_from a (from_cursor cursor)) t.entries

    found_is :
        numbers (select (logs_from a (from_cursor cursor)) t.entries)
        ≡ range
            (page_start a (from_cursor cursor) t)
            ((meta a t.consoles).next_seq - page_start a (from_cursor cursor) t)
    found_is =
        let n = h.numbered a in
        let m = meta a t.consoles in
        let reach : m.first_seq + (m.next_seq - m.first_seq) ≡ m.next_seq =
          omega (arith, n.ordered) in
        numbers-select a (from_cursor cursor) t.entries
        ∙ ap (delete (λ i. ltb i (from_cursor cursor))) n.numbers
        ∙ delete-range-max m.first_seq (m.next_seq - m.first_seq) (from_cursor cursor)
        ∙ ap
            (λ x.
              range (page_start a (from_cursor cursor) t) (x - page_start a (from_cursor cursor) t))
            reach

    paged :
        numbers (
          take
            (clamp_limit limit)
            (order_by_seq (select (logs_from a (from_cursor cursor)) t.entries)))
        ≡ range (page_start a (from_cursor cursor) t) (page_size a (from_cursor cursor) limit t)
    paged =
        ap (λ x. numbers (take (clamp_limit limit) x)) (order_by_seq-range _ _ _ found_is)
        ∙ numbers-take (clamp_limit limit) _
        ∙ ap (take (clamp_limit limit)) found_is
        ∙ take-range (clamp_limit limit) _ _
