-- ===== src/Policy/Listing.antt =====
-- List against the order in which Go ranges over the map.
use mathlib.Core.Path.{ap₂}
use mathlib.Core.List.Permᴰ
use secret_control_panel.Base.{
  if◌then◌else◌, Bool-cases, ◌==◌, ◌!=◌, nat_eq, eq_iff, ne_of_beq, length, length-append, All-map,
  length-perm, length-map, ◌≡◌, sym, subst, ◌∙◌, ◌↔◌, ◌⊎◌, inl, inr, Bool, true, false, false≢true,
  List, [], ◌∷◌, ◌++◌, map, Permᴰ, arith,
}
use secret_control_panel.Text.{Str, str_eq, str_lt}
use secret_control_panel.Text.Order.{str_lt-asymm, str_lt_trans, str_lt-connex}
use secret_control_panel.Sort.{IsStrictWeak, Ordered, Sorter}
use secret_control_panel.Sort.Unique.{Ordered-unique}
use secret_control_panel.Policy.{
  Summary, Store, exact_summary, prefix_summary, before, size, listing,
}

-- What the order of List looks at.
abbrev pub key : Summary → Str × Str
key s = (s.mount, s.path)

abbrev key_lt : Str × Str → Str × Str → Bool
key_lt (m, p) (n, q) = if m != n then str_lt m n else str_lt p q

str_lt_irrefl : (s : Str) → str_lt s s ≡ false
str_lt_irrefl s = elim (Bool-cases (str_lt s s)) [ inl e ↦ str_lt-asymm s s e | inr e ↦ e ]

-- The first components differ in their order, or they are equal and the second ones do.
key_lt_iff :
    (a b : Str × Str)
    → (key_lt a b ≡ true) ↔ ((str_lt a.0 b.0 ≡ true) ⊎ ((a.0 ≡ b.0) × (str_lt a.1 b.1 ≡ true)))
key_lt_iff (m, p) (n, q) = elim (Bool-cases (m == n)) [
  | inl e ↦
      let same : m ≡ n = (eq_iff m n).0 e in
      let stuck : str_lt m n ≡ false = subst (λ x. str_lt m x ≡ false) same (str_lt_irrefl m) in
      rw e (
        λ h. inr (same, h),
        λ d. elim d [ inl h ↦ absurd (false≢true (sym stuck ∙ h)) | inr (_, h) ↦ h ],
      )
  | inr e ↦
      rw e (λ h. inl h, λ d. elim d [ inl h ↦ h | inr (same, h) ↦ absurd (ne_of_beq m n e same) ])
]

key_lt-asymm : (a b : Str × Str) → key_lt a b ≡ true → key_lt b a ≡ false
key_lt-asymm a b h = elim (Bool-cases (key_lt b a)) [
  | inl k ↦ absurd (false≢true (both ((key_lt_iff a b).0 h) ((key_lt_iff b a).0 k)))
  | inr k ↦ k
]
  where
    both :
        (str_lt a.0 b.0 ≡ true) ⊎ ((a.0 ≡ b.0) × (str_lt a.1 b.1 ≡ true))
        → (str_lt b.0 a.0 ≡ true) ⊎ ((b.0 ≡ a.0) × (str_lt b.1 a.1 ≡ true))
        → false ≡ true
    both (inl x) (inl y) = sym (str_lt-asymm a.0 b.0 x) ∙ y
    both (inl x) (inr (e, y)) = sym (str_lt_irrefl a.0) ∙ subst (λ u. str_lt a.0 u ≡ true) e x
    both (inr (e, x)) (inl y) = sym (str_lt_irrefl b.0) ∙ subst (λ u. str_lt b.0 u ≡ true) e y
    both (inr (e, x)) (inr (f, y)) = sym (str_lt-asymm a.1 b.1 x) ∙ y

key_lt_irrefl : (a : Str × Str) → key_lt a a ≡ false
key_lt_irrefl a = elim (Bool-cases (key_lt a a)) [ inl e ↦ key_lt-asymm a a e | inr e ↦ e ]

key_lt_trans : (a b c : Str × Str) → key_lt a b ≡ true → key_lt b c ≡ true → key_lt a c ≡ true
key_lt_trans a b c h k = (key_lt_iff a c).1 (chained ((key_lt_iff a b).0 h) ((key_lt_iff b c).0 k))
  where
    chained :
        (str_lt a.0 b.0 ≡ true) ⊎ ((a.0 ≡ b.0) × (str_lt a.1 b.1 ≡ true))
        → (str_lt b.0 c.0 ≡ true) ⊎ ((b.0 ≡ c.0) × (str_lt b.1 c.1 ≡ true))
        → (str_lt a.0 c.0 ≡ true) ⊎ ((a.0 ≡ c.0) × (str_lt a.1 c.1 ≡ true))
    chained (inl x) (inl y) = inl (str_lt_trans a.0 b.0 c.0 x y)
    chained (inl x) (inr (e, y)) = inl (subst (λ u. str_lt a.0 u ≡ true) e x)
    chained (inr (e, x)) (inl y) = inl (subst (λ u. str_lt u c.0 ≡ true) (sym e) y)
    chained (inr (e, x)) (inr (f, y)) = inr (e ∙ f, str_lt_trans a.1 b.1 c.1 x y)

key_lt-connex : (a b : Str × Str) → key_lt a b ≡ false → key_lt b a ≡ false → a ≡ b
key_lt-connex a b h k =
    ap₂ (λ x y. (x, y)) same (str_lt-connex a.1 b.1 (below a b same h) (below b a (sym same) k))
  where
    not_less : (x y : Str × Str) → key_lt x y ≡ false → str_lt x.0 y.0 ≡ false
    not_less x y e = elim (Bool-cases (str_lt x.0 y.0)) [
      | inl l ↦ absurd (false≢true (sym e ∙ (key_lt_iff x y).1 (inl l)))
      | inr l ↦ l
    ]

    same : a.0 ≡ b.0
    same = str_lt-connex a.0 b.0 (not_less a b h) (not_less b a k)

    below : (x y : Str × Str) → x.0 ≡ y.0 → key_lt x y ≡ false → str_lt x.1 y.1 ≡ false
    below x y first e = elim (Bool-cases (str_lt x.1 y.1)) [
      | inl l ↦ absurd (false≢true (sym e ∙ (key_lt_iff x y).1 (inr (first, l))))
      | inr l ↦ l
    ]

key_lt-neg_trans :
    (a b c : Str × Str) → key_lt b a ≡ false → key_lt c b ≡ false → key_lt c a ≡ false
key_lt-neg_trans a b c h k = elim (Bool-cases (key_lt c a)) [
  | inr e ↦ e
  | inl e ↦ elim (Bool-cases (key_lt a b)) [
    | inl f ↦ absurd (false≢true (sym k ∙ key_lt_trans c a b e f))
    | inr f ↦ subst (λ x. key_lt c x ≡ false) (sym (key_lt-connex a b f h)) k
  ]
]

before-IsStrictWeak : IsStrictWeak before
before-IsStrictWeak = record {
  asymm = λ x y. key_lt-asymm (key x) (key y);
  neg_trans = λ x y z. key_lt-neg_trans (key x) (key y) (key z);
}

keys_set : IsSet (Str × Str)
keys_set = hlevel

keys-Ordered : (xs : List Summary) → Ordered before xs → Ordered key_lt (map key xs)
keys-Ordered [] h = tt
keys-Ordered (x ∷ xs) h = (All-map (λ k. key_lt k (key x) ≡ false) key xs h.0, keys-Ordered xs h.1)

-- Ranging over a map yields its entries in some order.
abbrev pub Rearranges : (List (Str × List Str) → List (Str × List Str)) → Type 0
Rearranges range_order = (xs : List (Str × List Str)) → Permᴰ xs (range_order xs)

-- The summaries before the sort.
abbrev summaries : (List (Str × List Str) → List (Str × List Str)) → Store → List Summary
summaries range_order s = map exact_summary (range_order s.by_key) ++ map prefix_summary s.prefixes

sorted :
    (sorter : Sorter Summary) (range_order : List (Str × List Str) → List (Str × List Str))
    (s : Store)
    → Ordered before (sorter.sort before (summaries range_order s))
sorted sorter range_order s =
    sorter.sort-Ordered before (summaries range_order s) before-IsStrictWeak

summaries-perm :
    (range_order range_order' : List (Str × List Str) → List (Str × List Str)) (s : Store)
    → Rearranges range_order
    → Rearranges range_order'
    → Permᴰ (summaries range_order s) (summaries range_order' s)
summaries-perm order order' s r r' =
    Permᴰ.append_right (map prefix_summary s.prefixes)
      (Permᴰ.map exact_summary (Permᴰ.trans (Permᴰ.symm (r s.by_key)) (r' s.by_key)))

length-summaries :
    (range_order : List (Str × List Str) → List (Str × List Str)) (s : Store)
    → Rearranges range_order
    → length (summaries range_order s) ≡ size s
unfolding size
length-summaries order s r = omega (
  arith,
  length-append (map exact_summary (order s.by_key)) (map prefix_summary s.prefixes),
  length-map exact_summary (order s.by_key),
  length-map prefix_summary s.prefixes,
  length-perm (r s.by_key),
)

-- Whatever the order in which Go ranges over the map, and wherever sort.Slice puts summaries of one
-- mount and path, List shows the same mounts and paths in the same order, which is ascending, and one
-- summary for each policy of the store.
pub listing-determined :
    (sorter sorter' : Sorter Summary)
    (range_order range_order' : List (Str × List Str) → List (Str × List Str)) (s : Store)
    → Rearranges range_order
    → Rearranges range_order'
    → (map key (listing sorter range_order s) ≡ map key (listing sorter' range_order' s))
      × Ordered before (listing sorter range_order s)
      × (length (listing sorter range_order s) ≡ size s)
unfolding listing size
listing-determined sorter sorter' order order' s r r' = (
  Ordered-unique keys_set key_lt key_lt_irrefl key_lt-connex _ _
      (keys-Ordered (sorter.sort before (summaries order s)) (sorted sorter order s))
      (keys-Ordered (sorter'.sort before (summaries order' s)) (sorted sorter' order' s))
      (Permᴰ.map key (
        Permᴰ.trans (Permᴰ.symm (sorter.sort-perm before (summaries order s))) (
          Permᴰ.trans (summaries-perm order order' s r r')
            (sorter'.sort-perm before (summaries order' s))))),
  sorted sorter order s,
  sym (length-perm (sorter.sort-perm before (summaries order s))) ∙ length-summaries order s r,
)
