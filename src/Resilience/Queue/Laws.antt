-- ===== src/Resilience/Queue/Laws.antt =====
-- The queue keeps its ids distinct, gives out new ones, and counts what it holds.
use stellar_kraal_contract.Common.{
  ℕ, suc, ◌+◌, ◌≤◌, ◌<◌, ◌≡◌, ◌≢◌, refl, sym, ap, ◌∙◌, ◌↔◌, inl, inr, Bool, true, false, List, [],
  ◌∷◌, ◌++◌, map, arith, ◌==◌, length, select, All, All-map, All-In, All-append, In, Bool-cases,
  length-append, length-map,
}
use mathlib.Core.List.Permᴰ
use stellar_kraal_contract.Common.Int.{ℤ}
use stellar_kraal_contract.Common.Sort.{
  sorted-perm, sorted-IsSorted, length-sorted, IsSorted, In-perm,
}
use stellar_kraal_contract.Common.Text.{Str, str_le_total, str_le_trans}
use stellar_kraal_contract.Resilience.Queue.{
  DlqEntry, DeadLetterQueue, enqueue, is_unreplayed, by_time, list_unreplayed, mark_row,
  mark_replayed, count, count_unreplayed,
}

abbrev pub HasDistinctIds : List DlqEntry → Type 0
HasDistinctIds [] = Unit
HasDistinctIds (e ∷ es) = All (λ f. e.id ≢ f.id) es × HasDistinctIds es

-- No two rows share an id, and no id is above the counter.
pub record IsValid (q : DeadLetterQueue) : Type 0 where
  pub distinct : HasDistinctIds q.rows
  pub below : All (λ e. e.id ≤ q.last_id) q.rows

HasDistinctIds-snoc :
    (es : List DlqEntry) (f : DlqEntry)
    → HasDistinctIds es
    → All (λ e. e.id < f.id) es
    → HasDistinctIds (es ++ f ∷ [])
HasDistinctIds-snoc [] f h b = (tt, tt)
HasDistinctIds-snoc (e ∷ es) f h b = (
  All-append (λ g. e.id ≢ g.id) es (f ∷ []) h.0 (λ p. absurd (omega (arith, b.0)), tt),
  HasDistinctIds-snoc es f h.1 b.1,
)

-- `enqueue` keeps the ids distinct and at most the counter, and the id that it returns is that of no row before.
pub enqueue-IsValid :
    (feed payload message now : Str) (attempts : ℤ) (q : DeadLetterQueue)
    → IsValid q
    → IsValid (enqueue feed payload message attempts now q).0
      × All (λ e. e.id ≢ (enqueue feed payload message attempts now q).1) q.rows
unfolding enqueue
enqueue-IsValid feed payload message now attempts q v = (
  record {
    distinct =
        HasDistinctIds-snoc q.rows _ v.distinct (All-map q.rows (λ e h. omega arith) v.below);
    below =
        All-append (λ e. e.id ≤ q.last_id + 1) q.rows _
          (All-map q.rows (λ e h. omega arith) v.below) (omega arith, tt);
  },
  All-map q.rows (λ e h p. absurd (omega arith)) v.below,
)

module _ (n : ℕ) (now : Str) where
  mark_row-id : (e : DlqEntry) → (mark_row n now e).id ≡ e.id
  unfolding mark_row
  mark_row-id e = ground arith

  All-mark :
      (P : ℕ → Type 0) (es : List DlqEntry)
      → All (λ e. P e.id) es
      → All (λ e. P e.id) (map (mark_row n now) es)
  All-mark P [] h = tt
  All-mark P (e ∷ es) h = (rw (mark_row-id e) h.0, All-mark P es h.1)

  HasDistinctIds-mark :
      (es : List DlqEntry) → HasDistinctIds es → HasDistinctIds (map (mark_row n now) es)
  HasDistinctIds-mark [] h = tt
  HasDistinctIds-mark (e ∷ es) h =
      (rw (mark_row-id e) (All-mark (λ k. e.id ≢ k) es h.0), HasDistinctIds-mark es h.1)

  -- `mark_replayed` keeps the ids distinct and at most the counter.
  pub mark_replayed-IsValid : (q : DeadLetterQueue) → IsValid q → IsValid (mark_replayed n now q)
  unfolding mark_replayed
  mark_replayed-IsValid q v = record {
    distinct = HasDistinctIds-mark q.rows v.distinct;
    below = All-mark (λ k. k ≤ q.last_id) q.rows v.below;
  }

pub In-select_iff :
    (p : DlqEntry → Bool) (e : DlqEntry) (es : List DlqEntry)
    → In e (select p es) ↔ (In e es × (p e ≡ true))
In-select_iff p e [] = (λ m. elim m [ ], λ m. elim (m.0) [ ])
In-select_iff p e (f ∷ es) = elim (Bool-cases (p f)) [
  | inl h ↦ rw h (
    (λ m. elim m [
      | inl q ↦ (inl q, ap p (sym q) ∙ h)
      | inr m' ↦ let (n, t) = (In-select_iff p e es).0 m' in (inr n, t)
    ]),
    (λ m. elim (m.0) [ inl q ↦ inl q | inr m' ↦ inr ((In-select_iff p e es).1 (m', m.1)) ]),
  )
  | inr h ↦ rw h (
    (λ m. let (n, t) = (In-select_iff p e es).0 m in (inr n, t)),
    (λ m. elim (m.0) [
      | inl q ↦ absurd (cc (ap p q, m.1, h))
      | inr m' ↦ (In-select_iff p e es).1 (m', m.1)
    ]),
  )
]

pub select-append :
    (p : DlqEntry → Bool) (es fs : List DlqEntry) → select p (es ++ fs) ≡ select p es ++ select p fs
select-append p [] fs = refl
select-append p (e ∷ es) fs = ground (arith, select-append p es fs)

-- A new entry is counted once, as not replayed.
pub enqueue-counts :
    (feed payload message now : Str) (attempts : ℤ) (q : DeadLetterQueue)
    → let q' = (enqueue feed payload message attempts now q).0 in
      (count q' ≡ count q + 1) × (count_unreplayed q' ≡ count_unreplayed q + 1)
unfolding enqueue count count_unreplayed
enqueue-counts feed payload message now attempts q = (
  length-append q.rows _,
  ap (length {0}) (select-append is_unreplayed q.rows _)
      ∙ length-append (select is_unreplayed q.rows) _,
)

-- `list_unreplayed` returns exactly the rows that are not replayed, as many as
-- `count_unreplayed` says, in ascending order of their times.
pub list_unreplayed_lem :
    (q : DeadLetterQueue)
    → ((e : DlqEntry) → In e (list_unreplayed q) ↔ (In e q.rows × (e.replayed ≡ false)))
      × (length (list_unreplayed q) ≡ count_unreplayed q)
      × IsSorted by_time (list_unreplayed q)
unfolding list_unreplayed count_unreplayed
list_unreplayed_lem q =
    let chosen = select is_unreplayed q.rows in
    let perm = sorted-perm by_time chosen in
    (
      (λ e. (
        (λ m.
            let (n, t) = (In-select_iff is_unreplayed e q.rows).0 (In-perm e perm m) in
            (n, ground arith)),
        (λ m.
            In-perm e (Permᴰ.symm perm)
              ((In-select_iff is_unreplayed e q.rows).1 (m.0, ground arith))),
      )),
      length-sorted by_time chosen,
      sorted-IsSorted by_time (λ e f. str_le_total e.created_at f.created_at)
          (λ e f g. str_le_trans e.created_at f.created_at g.created_at) chosen,
    )

module _ (n : ℕ) (now : Str) where
  -- What marking does to one row.
  mark_row_self : (e : DlqEntry) → e.id ≡ n → (mark_row n now e).replayed ≡ true
  unfolding mark_row
  mark_row_self e h = ground arith

  mark_row_other : (e : DlqEntry) → e.id ≢ n → mark_row n now e ≡ e
  unfolding mark_row
  mark_row_other e h = elim (Bool-cases (e.id == n)) [
    | inl t ↦ absurd (h (ground arith))
    | inr t ↦ rw t
  ]

  map-mark_other : (es : List DlqEntry) → All (λ e. e.id ≢ n) es → map (mark_row n now) es ≡ es
  map-mark_other [] h = refl
  map-mark_other (e ∷ es) h = rw (mark_row_other e h.0, map-mark_other es h.1)

  select-mark :
      (es : List DlqEntry) (e : DlqEntry)
      → HasDistinctIds es
      → In e es
      → e.id ≡ n
      → e.replayed ≡ false
      → suc (length (select is_unreplayed (map (mark_row n now) es)))
        ≡ length (select is_unreplayed es)
  select-mark [] e h m same open_entry = elim m [ ]
  select-mark (f ∷ es) e h (inl q) same open_entry =
      let is_n : f.id ≡ n = ap (λ g. g.id) q ∙ same in
      let is_open : f.replayed ≡ false = ap (λ g. g.replayed) q ∙ open_entry in
      let others = map-mark_other es (All-map es (λ g ne p. ne (is_n ∙ sym p)) h.0) in
      rw (mark_row_self f is_n, is_open, others)
  select-mark (f ∷ es) e h (inr m) same open_entry =
      let differs : f.id ≢ n = λ p. All-In (λ g. f.id ≢ g.id) e es h.0 m (p ∙ sym same) in
      let rest = select-mark es e h.1 m same open_entry in
      rw (mark_row_other f differs) (ground arith)

  -- Marking an entry that is not yet replayed, in a valid queue, takes exactly one from
  -- `count_unreplayed` and nothing from `count`.
  pub mark_replayed-counts :
      (q : DeadLetterQueue) (e : DlqEntry)
      → IsValid q
      → In e q.rows
      → e.id ≡ n
      → e.replayed ≡ false
      → (count (mark_replayed n now q) ≡ count q)
        × (suc (count_unreplayed (mark_replayed n now q)) ≡ count_unreplayed q)
  unfolding mark_replayed count count_unreplayed
  mark_replayed-counts q e v m same open_entry =
      (length-map (mark_row n now) q.rows, select-mark q.rows e v.distinct m same open_entry)

  In-mark_iff :
      (e : DlqEntry) (es : List DlqEntry)
      → (In e (map (mark_row n now) es) × (e.replayed ≡ false))
        ↔ (In e es × (e.replayed ≡ false) × (e.id ≢ n))
  In-mark_iff e [] = ((λ m. elim (m.0) [ ]), (λ m. elim (m.0) [ ]))
  In-mark_iff e (f ∷ es) = (
    (λ m. elim (m.0) [
      | inl q ↦ from_head q m.1
      | inr m' ↦ let (i, o, d) = (In-mark_iff e es).0 (m', m.1) in (inr i, o, d)
    ]),
    (λ m. elim (m.0) [
      | inl q ↦ (inl (mark_row_other f (λ p. m.2 (ap (λ g. g.id) (sym q) ∙ p)) ∙ q), m.1)
      | inr m' ↦ let (i, o) = (In-mark_iff e es).1 (m', m.1, m.2) in (inr i, o)
    ]),
  )
    where
      from_head :
          mark_row n now f ≡ e
          → e.replayed ≡ false
          → In e (f ∷ es) × (e.replayed ≡ false) × (e.id ≢ n)
      from_head q o = elim (Bool-cases (f.id == n)) [
        | inl t ↦
            let self = mark_row_self f (ground arith) in
            absurd (cc (ap (λ g. g.replayed) q, self, o))
        | inr t ↦
            let kept = mark_row_other f (λ p. ground arith) in
            (
              inl (sym kept ∙ q),
              o,
              (λ p. ground (arith, ap (λ (g : DlqEntry). g.id) (sym kept ∙ q))),
            )
      ]

  -- After marking, the unreplayed entries are exactly those of before with another id.
  pub mark_replayed-list :
      (q : DeadLetterQueue) (e : DlqEntry)
      → In e (list_unreplayed (mark_replayed n now q)) ↔ (In e (list_unreplayed q) × (e.id ≢ n))
  unfolding mark_replayed
  mark_replayed-list q e =
      let before = (list_unreplayed_lem q).0 e in
      let later = (list_unreplayed_lem (mark_replayed n now q)).0 e in
      (
        (λ m. let (i, o, d) = (In-mark_iff e q.rows).0 (later.0 m) in (before.1 (i, o), d)),
        (λ m. let (i, o) = before.0 m.0 in later.1 ((In-mark_iff e q.rows).1 (i, o, m.1))),
      )
