-- ===== src/Queue/Store/Rows.antt =====
-- Lookups in the job table after updates, selections and `ORDER BY id`.
use cine_forge.Prelude.{
  ℕ, ◌≤◌, ◌≡◌, refl, ◌≢◌, inl, inr, Bool, true, false, Option, none, some, List, [], ◌∷◌, ◌==◌,
  select, if◌then◌else◌, find?, head?, All, arith, Bool-cases, Option-cases, sym, ◌∙◌,
}
use cine_forge.Queue.Store.{ComfyJob, update_rows, insert_by_id, order_by_id}

-- The row with an identifier.
abbrev pub row : ℕ → List ComfyJob → Option ComfyJob
row i js = find? (λ j. j.id == i) js

pub row-id : (i : ℕ) (js : List ComfyJob) {j : ComfyJob} → row i js ≡ some j → j.id ≡ i
row-id i [] h = cc
row-id i (k ∷ ks) {j} h = ground (arith, row-id i ks {j = j})

module _ (i : ℕ) (f : ComfyJob → ComfyJob) (keeps : (j : ComfyJob) → (f j).id ≡ j.id) where
  pub row-update_rows_self :
      (js : List ComfyJob) {j : ComfyJob}
      → row i js ≡ some j
      → row i (update_rows i f js) ≡ some (f j)
  row-update_rows_self [] h = cc
  row-update_rows_self (k ∷ ks) {j} h = ground (arith, keeps k, row-update_rows_self ks {j = j})

  pub row-update_rows_ne :
      (k : ℕ) (js : List ComfyJob) → k ≢ i → row k (update_rows i f js) ≡ row k js
  row-update_rows_ne k [] h = refl
  row-update_rows_ne k (j ∷ js) h = ground (arith, keeps j, row-update_rows_ne k js h)

pub row-insert_by_id :
    (i : ℕ) (j : ComfyJob) (js : List ComfyJob)
    → row i (insert_by_id j js) ≡ (if j.id == i then some j else row i js)
unfolding insert_by_id
row-insert_by_id i j [] = refl
row-insert_by_id i j (k ∷ ks) = ground (arith, row-insert_by_id i j ks)

pub row-order_by_id : (i : ℕ) (js : List ComfyJob) → row i (order_by_id js) ≡ row i js
unfolding order_by_id
row-order_by_id i [] = refl
row-order_by_id i (j ∷ js) =
    ground (arith, row-insert_by_id i j (order_by_id js), row-order_by_id i js)

-- No two rows share an identifier, as the primary key demands.
abbrev pub Keyed : List ComfyJob → Type 0
Keyed [] = Unit
Keyed (j ∷ js) = (row j.id js ≡ none) × Keyed js

row-update_rows-none :
    (i k : ℕ) (f : ComfyJob → ComfyJob) (js : List ComfyJob)
    → ((j : ComfyJob) → (f j).id ≡ j.id)
    → row k js ≡ none
    → row k (update_rows i f js) ≡ none
row-update_rows-none i k f [] keeps h = refl
row-update_rows-none i k f (j ∷ js) keeps h =
    ground (arith, keeps j, row-update_rows-none i k f js keeps)

pub Keyed-update_rows :
    (i : ℕ) (f : ComfyJob → ComfyJob) (js : List ComfyJob)
    → ((j : ComfyJob) → (f j).id ≡ j.id)
    → Keyed js
    → Keyed (update_rows i f js)
Keyed-update_rows i f [] keeps k = tt
Keyed-update_rows i f (j ∷ js) keeps k =
    ground (
      arith,
      keeps j,
      row-update_rows-none i j.id f js keeps k.0,
      Keyed-update_rows i f js keeps k.1,
    )

pub row-select-none :
    (i : ℕ) (p : ComfyJob → Bool) (js : List ComfyJob)
    → row i js ≡ none
    → row i (select p js) ≡ none
row-select-none i p [] h = refl
row-select-none i p (x ∷ xs) h = ground (arith, row-select-none i p xs)

pub row-select :
    (i : ℕ) (p : ComfyJob → Bool) (js : List ComfyJob) {j : ComfyJob}
    → Keyed js
    → row i js ≡ some j
    → row i (select p js) ≡ (if p j then some j else none)
row-select i p [] k h = cc
row-select i p (x ∷ xs) {j} k h =
    ground (arith, row-select i p xs {j = j} k.1, row-select-none i p xs)

-- `ORDER BY id` puts the least identifier first.
abbrev pub AllFrom : ℕ → List ComfyJob → Type 0
AllFrom n js = All (λ j. n ≤ j.id) js

abbrev pub Sorted : List ComfyJob → Type 0
Sorted [] = Unit
Sorted (j ∷ js) = AllFrom j.id js × Sorted js

AllFrom-weaken : (m n : ℕ) (js : List ComfyJob) → m ≤ n → AllFrom n js → AllFrom m js
AllFrom-weaken m n [] h a = tt
AllFrom-weaken m n (j ∷ js) h a = (omega arith, AllFrom-weaken m n js h a.1)

AllFrom-insert_by_id :
    (n : ℕ) (j : ComfyJob) (js : List ComfyJob)
    → n ≤ j.id
    → AllFrom n js
    → AllFrom n (insert_by_id j js)
unfolding insert_by_id
AllFrom-insert_by_id n j [] h a = (h, tt)
AllFrom-insert_by_id n j (k ∷ ks) h a = ground (arith, AllFrom-insert_by_id n j ks h a.1)

insert_by_id-Sorted : (j : ComfyJob) (js : List ComfyJob) → Sorted js → Sorted (insert_by_id j js)
unfolding insert_by_id
insert_by_id-Sorted j [] s = (tt, tt)
insert_by_id-Sorted j (k ∷ ks) s = ground (
  arith,
  insert_by_id-Sorted j ks s.1,
  AllFrom-insert_by_id k.id j ks,
  AllFrom-weaken j.id k.id ks,
)

pub order_by_id-Sorted : (js : List ComfyJob) → Sorted (order_by_id js)
unfolding order_by_id
order_by_id-Sorted [] = tt
order_by_id-Sorted (j ∷ js) = insert_by_id-Sorted j (order_by_id js) (order_by_id-Sorted js)

row-AllFrom :
    (n i : ℕ) (js : List ComfyJob) {j : ComfyJob} → AllFrom n js → row i js ≡ some j → n ≤ i
row-AllFrom n i [] a h = cc
row-AllFrom n i (k ∷ ks) {j} a h = ground (arith, row-AllFrom n i ks {j = j} a.1)

head?-row : (js : List ComfyJob) {j : ComfyJob} → head? js ≡ some j → row j.id js ≡ some j
head?-row [] h = cc
head?-row (k ∷ ks) {j} h = ground arith

head?-least :
    (js : List ComfyJob) {j m : ComfyJob} (i : ℕ)
    → Sorted js
    → head? js ≡ some j
    → row i js ≡ some m
    → j.id ≤ i
head?-least [] i s h r = cc
head?-least (k ∷ ks) {j} {m} i s h r = ground (arith, row-AllFrom k.id i ks {j = m} s.0)

-- A selection holds a row exactly if the table does and the row passes.
pub row_of_select :
    (i : ℕ) (p : ComfyJob → Bool) (js : List ComfyJob) {j : ComfyJob}
    → Keyed js
    → row i (select p js) ≡ some j
    → (row i js ≡ some j) × (p j ≡ true)
row_of_select i p js {j} k h = elim (Option-cases (row i js)) [
  | inl absent ↦ absurd (ground (arith, row-select-none i p js))
  | inr (m, e) ↦ elim (Bool-cases (p m)) [
    | inl passes ↦ ground (arith, row-select i p js {j = m} k e)
    | inr fails ↦ absurd (ground (arith, row-select i p js {j = m} k e))
  ]
]

-- The first row of `SELECT … WHERE p ORDER BY id` is a row of the table, passes, and has the least
-- identifier of all that pass.
pub first_selected :
    (p : ComfyJob → Bool) (js : List ComfyJob) {j : ComfyJob}
    → Keyed js
    → head? (order_by_id (select p js)) ≡ some j
    → (row j.id js ≡ some j)
      × (p j ≡ true)
      × ((m : ComfyJob) → row m.id js ≡ some m → p m ≡ true → j.id ≤ m.id)
first_selected p js {j} k h =
    let found = row-order_by_id j.id (select p js) in
    let held =
      row_of_select j.id p js {j = j} k (sym found ∙ head?-row (order_by_id (select p js)) h) in
    (
      held.0,
      held.1,
      λ m r pm.
          head?-least (order_by_id (select p js)) {m = m} m.id (order_by_id-Sorted (select p js)) h
            (rw (row-order_by_id m.id (select p js), row-select m.id p js {j = m} k r, pm)),
    )

head?-none : (i : ℕ) (js : List ComfyJob) → head? js ≡ none → row i js ≡ none
head?-none i [] h = refl
head?-none i (j ∷ js) h = cc

-- Without a first row no row of the table passes.
pub none_selected :
    (p : ComfyJob → Bool) (js : List ComfyJob) (m : ComfyJob)
    → Keyed js
    → head? (order_by_id (select p js)) ≡ none
    → row m.id js ≡ some m
    → p m ≡ false
none_selected p js m k h r = elim (Bool-cases (p m)) [
  | inr fails ↦ fails
  | inl passes ↦ absurd (
      ground (
        arith,
        head?-none m.id (order_by_id (select p js)) h,
        row-order_by_id m.id (select p js),
        row-select m.id p js {j = m} k r,
      ))
]
