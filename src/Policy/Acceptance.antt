-- ===== src/Policy/Acceptance.antt =====
-- Which sets of policies Load accepts.
use secret_control_panel.Base.{
  Bool-cases, nat_eq, any, Result, ok, err, ℕ, suc, ◌≡◌, refl, sym, ap, ◌∙◌, inl, inr, true, false,
  false≢true, not, ◌&&◌, ◌||◌, List, [], ◌∷◌, arith,
}
use secret_control_panel.Text.{Str, str_eq}
use secret_control_panel.VaultPath.{normalize}
use secret_control_panel.Sort.{Sorter}
use secret_control_panel.Policy.{
  Policy, PrefixRule, Store, Index, LoadError, WildcardError, no_index, lookup, parse_wildcard,
  load_one, load_all, load,
}
use secret_control_panel.Policy.Loading.{Added, load_one-Added}
use secret_control_panel.Policy.Checks.{
  is_ok, well_formed, same_path, acceptable_after, acceptable, taken_as, taken, load_one-is_ok,
  taken_after,
}

-- The index knows the paths of the policies before.
abbrev Knows : List Policy → Index → Type 0
Knows before n = (r : Policy) → well_formed r ≡ true → taken r n ≡ any (same_path r) before

well_formed-parse :
    (r : Policy) → well_formed r ≡ true → is_ok (parse_wildcard (normalize r.vault_path)) ≡ true
well_formed-parse r h = ground arith

Knows-next :
    (p : Policy) (before : List Policy) (n m : Index)
    → Added p n m
    → Knows before n
    → Knows (p ∷ before) m
Knows-next p before n m added knows r good =
    taken_after p n m (normalize r.vault_path) (parse_wildcard (normalize r.vault_path)) refl
      (well_formed-parse r good) added
    ∙ ap (λ b. same_path r p || b) (knows r good)

load_all-is_ok :
    (i : ℕ) (ps before : List Policy) (n : Index)
    → Knows before n
    → is_ok (load_all i ps n) ≡ acceptable_after before ps
unfolding load_all
load_all-is_ok i [] before n knows = refl
load_all-is_ok i (p ∷ ps) before n knows =
    by_result (load_one i p n) refl (load_all-is_ok (suc i) ps (p ∷ before))
  where
    known : well_formed p ≡ true → taken p n ≡ any (same_path p) before
    known = knows p

    checked : is_ok (load_one i p n) ≡ (well_formed p && not (any (same_path p) before))
    checked = elim (Bool-cases (well_formed p)) [
      | inl h ↦ load_one-is_ok i p n ∙ ap (λ b. well_formed p && not b) (known h)
      | inr h ↦
          load_one-is_ok i p n
          ∙ ap (λ b. b && not (taken p n)) h
          ∙ sym (ap (λ b. b && not (any (same_path p) before)) h)
    ]

    by_result :
        (o : Result LoadError Index)
        → load_one i p n ≡ o
        → ((m : Index)
            → Knows (p ∷ before) m
            → is_ok (load_all (suc i) ps m) ≡ acceptable_after (p ∷ before) ps)
        → is_ok (load_all i (p ∷ ps) n) ≡ acceptable_after before (p ∷ ps)
    by_result (err e) h later =
        let no_good : false ≡ (well_formed p && not (any (same_path p) before)) =
          ap is_ok (sym h) ∙ checked in
        rw h (ground arith)
    by_result (ok m) h later =
        let good : true ≡ (well_formed p && not (any (same_path p) before)) =
          ap is_ok (sym h) ∙ checked in
        rw h (later m (Knows-next p before n m (load_one-Added i p n m h) knows) ∙ ground arith)

no_index-Knows : Knows [] no_index
no_index-Knows r good = by_parse (parse_wildcard (normalize r.vault_path))
  where
    by_parse : (o : Result WildcardError Str) → taken_as o (normalize r.vault_path) no_index ≡ false
    by_parse (err e) = refl
    by_parse (ok []) = unfold lookup in refl
    by_parse (ok (c ∷ q)) = refl

-- Load accepts a set of policies exactly when every policy is well formed and no two have the same
-- normalised path, whatever the store holds.
pub load-acceptable :
    (sorter : Sorter PrefixRule) (s : Store) (ps : List Policy)
    → is_ok (load sorter s ps).0 ≡ acceptable ps
unfolding load
load-acceptable sorter s ps = by_result (load_all 0 ps no_index) refl
  where
    by_result :
        (o : Result LoadError Index)
        → load_all 0 ps no_index ≡ o
        → is_ok (load sorter s ps).0 ≡ acceptable ps
    by_result (err e) h =
        rw (h, load) (ap is_ok (sym h) ∙ load_all-is_ok 0 ps [] no_index no_index-Knows)
    by_result (ok n) h =
        rw (h, load) (ap is_ok (sym h) ∙ load_all-is_ok 0 ps [] no_index no_index-Knows)

-- Where one policy of the set is not acceptable, Load returns an error and the store is as it was.
pub load_rejected :
    (sorter : Sorter PrefixRule) (s : Store) (ps : List Policy)
    → acceptable ps ≡ false
    → (e : LoadError) × (load sorter s ps ≡ (err e, s))
unfolding load
load_rejected sorter s ps h = by_result (load_all 0 ps no_index) refl
  where
    by_result :
        (o : Result LoadError Index)
        → load_all 0 ps no_index ≡ o
        → (e : LoadError) × (load sorter s ps ≡ (err e, s))
    by_result (err e) k = (e, rw (k, load))
    by_result (ok n) k =
        absurd
          (false≢true (sym h ∙ sym (load_all-is_ok 0 ps [] no_index no_index-Knows) ∙ ap is_ok k))
