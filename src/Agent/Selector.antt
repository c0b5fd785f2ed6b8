-- ===== src/Agent/Selector.antt =====
-- SelectorMatches of internal/agent/patcher/k8s.go.
use mathlib.Core.List.{append_assoc, append-nil, reverse-append}
use secret_control_panel.Base.{
  if◌then◌else◌, ◌==◌, nat_eq, beq_of_ne, any, All, All-append, All-mem, All-of-mem, All-map, ℕ,
  ◌≡◌, refl, sym, ap, ◌∙◌, ◌≢◌, ◌⊎◌, inl, inr, Bool, true, false, ◌||◌, List, [], ◌∷◌, ◌++◌, map,
  reverse, arith,
}
use secret_control_panel.Text.{Str, codes, str_eq, trim, trim_left, trim_right}
use secret_control_panel.Text.Space.{
  trim_space, trim_left_space, trim_right_space, trim_any, fields_func, fields_from, emit,
}
use secret_control_panel.Text.Trim.{NoEdge, Only}
use secret_control_panel.Text.Around.{
  IsBlank, HasGraphicHead, HasGraphicHead-append, All-reverse, trim_space-around, trim-around,
}
use secret_control_panel.VaultPath.{normalize}

abbrev pub selector_annotation : Str
selector_annotation = codes "scp.vault/path"

abbrev pub trigger_annotation : Str
trigger_annotation = codes "force-sync"

-- The bytes between the entries: comma, line feed and carriage return.
abbrev pub is_separator : ℕ → Bool
is_separator c = c == b',' || c == 10 || c == 13

abbrev pub names : Str → Str → Bool
names target raw = normalize (trim_space raw) == target

unfoldable pub selector_matches : Str → Str → Bool
selector_matches annotation target =
    if target == [] then false else any (names target) (fields_func is_separator annotation)

-- The entries with a separator behind each but the last, as an annotation lists them.
abbrev pub listed : ℕ → List Str → Str
listed sep [] = []
listed sep (entry ∷ []) = entry
listed sep (entry ∷ next ∷ entries) = entry ++ sep ∷ listed sep (next ∷ entries)

abbrev pub NoSeparator : Str → Type 0
NoSeparator = All (λ c. is_separator c ≡ false)

-- Reading an entry with no separator in it.
fields_from-entry :
    (field entry rest : Str)
    → NoSeparator entry
    → fields_from is_separator field (entry ++ rest)
      ≡ fields_from is_separator (field ++ entry) rest
unfolding fields_from
fields_from-entry field [] rest h =
    ap (λ t. fields_from is_separator t rest) (sym (append-nil field))
fields_from-entry field (c ∷ entry) rest (plain, h) =
    rw (plain, fields_from)
      (fields_from-entry (field ++ c ∷ []) entry rest h
        ∙ ap (λ t. fields_from is_separator t rest) (append_assoc field (c ∷ []) entry))

emit-any :
    (target field : Str) (fields : List Str)
    → names target [] ≡ false
    → any (names target) (emit field fields) ≡ (names target field || any (names target) fields)
emit-any target [] fields h = rw h
emit-any target (c ∷ field) fields h = refl

listed-any :
    (target : Str) (sep : ℕ) (entries : List Str)
    → is_separator sep ≡ true
    → names target [] ≡ false
    → All NoSeparator entries
    → any (names target) (fields_func is_separator (listed sep entries))
      ≡ any (names target) entries
unfolding fields_func
listed-any target sep [] s h plain = unfold fields_from in refl
listed-any target sep (entry ∷ []) s h (plain, _) =
    ap (any (names target)) (
      ap (fields_from is_separator []) (sym (append-nil entry))
      ∙ fields_from-entry [] entry [] plain
      ∙ ended)
    ∙ emit-any target entry [] h
  where
    ended : fields_from is_separator entry [] ≡ emit entry []
    ended = unfold fields_from in refl
listed-any target sep (entry ∷ next ∷ entries) s h (plain, rest) =
    ap (any (names target))
      (fields_from-entry [] entry (sep ∷ listed sep (next ∷ entries)) plain ∙ separated)
    ∙ emit-any target entry (fields_func is_separator (listed sep (next ∷ entries))) h
    ∙ ap (λ b. names target entry || b) (listed-any target sep (next ∷ entries) s h rest)
  where
    separated :
        fields_from is_separator entry (sep ∷ listed sep (next ∷ entries))
        ≡ emit entry (fields_from is_separator [] (listed sep (next ∷ entries)))
    separated = unfold fields_from in rw (s, fields_from) refl

empty-names : (target : Str) → target ≢ [] → names target [] ≡ false
empty-names target h = beq_of_ne (normalize (trim_space [])) target (λ e. h (sym e ∙ blank))
  where
    blank : normalize (trim_space []) ≡ []
    blank =
        unfold normalize trim trim_left trim_right trim_space trim_left_space trim_right_space
          trim_any in
        refl

-- An entry of an annotation: a path, with slashes around it and blanks around these.
pub record Entry : Type 0 where
  pub before : Str
  pub slashes_before : Str
  pub path : Str
  pub slashes_after : Str
  pub after : Str

abbrev with_slashes : Entry → Str
with_slashes e = e.slashes_before ++ (e.path ++ e.slashes_after)

abbrev pub entry_text : Entry → Str
entry_text e = e.before ++ (with_slashes e ++ e.after)

-- The blanks are spaces and tabs, and the path has no slash and no white space at its ends, which are
-- ASCII, and no separator in it.
pub record IsEntry (e : Entry) : Type 0 where
  pub before : All IsBlank e.before
  pub after : All IsBlank e.after
  pub slashes_before : Only b'/' e.slashes_before
  pub slashes_after : Only b'/' e.slashes_after
  pub front : HasGraphicHead e.path
  pub back : HasGraphicHead (reverse e.path)
  pub normal : NoEdge b'/' e.path
  pub plain : NoSeparator e.path

graphic_slashes :
    (slashes s : Str) → Only b'/' slashes → HasGraphicHead s → HasGraphicHead (slashes ++ s)
graphic_slashes [] s h k = k
graphic_slashes (c ∷ slashes) s h k = (omega (arith, h.0), omega (arith, h.0))

Only-reversed : (s : Str) → Only b'/' s → Only b'/' (reverse s)
Only-reversed s h = All-reverse (λ c. c ≡ b'/') s h

entry-names :
    (target : Str) (e : Entry) → IsEntry e → names target (entry_text e) ≡ (e.path == target)
unfolding normalize
entry-names target e h =
    rw
      (
        trim_space-around e.before (with_slashes e) e.after h.before h.after
            (graphic_slashes e.slashes_before (e.path ++ e.slashes_after) h.slashes_before
              (HasGraphicHead-append e.path e.slashes_after h.front))
            back,
        trim-around e.slashes_before e.path e.slashes_after b'/' h.slashes_before h.slashes_after
            (not_empty e.path h.front) h.normal,
      )
      refl
  where
    not_empty : (s : Str) → HasGraphicHead s → s ≢ []
    not_empty [] g k = g
    not_empty (c ∷ s) g k = cc

    back : HasGraphicHead (reverse (with_slashes e))
    back =
        rw
          (
            reverse-append e.slashes_before (e.path ++ e.slashes_after),
            reverse-append e.path e.slashes_after,
            append_assoc (reverse e.slashes_after) (reverse e.path) (reverse e.slashes_before),
          )
          (graphic_slashes (reverse e.slashes_after) (reverse e.path ++ reverse e.slashes_before)
            (Only-reversed e.slashes_after h.slashes_after)
            (HasGraphicHead-append (reverse e.path) (reverse e.slashes_before) h.back))

entry-NoSeparator : (e : Entry) → IsEntry e → NoSeparator (entry_text e)
entry-NoSeparator e h =
    All-append _ e.before (with_slashes e ++ e.after) (blanks e.before h.before) (
      All-append _ (with_slashes e) e.after
        (All-append _ e.slashes_before (e.path ++ e.slashes_after)
          (slashes e.slashes_before h.slashes_before)
          (All-append _ e.path e.slashes_after h.plain (slashes e.slashes_after h.slashes_after)))
        (blanks e.after h.after))
  where
    blanks : (s : Str) → All IsBlank s → NoSeparator s
    blanks [] k = tt
    blanks (c ∷ s) (inl k, rest) = (rw k refl, blanks s rest)
    blanks (c ∷ s) (inr k, rest) = (rw k refl, blanks s rest)

    slashes : (s : Str) → Only b'/' s → NoSeparator s
    slashes [] k = tt
    slashes (c ∷ s) k = (rw k.0 refl, slashes s k.1)

any-paths :
    (target : Str) (entries : List Entry)
    → All IsEntry entries
    → any (names target) (map entry_text entries) ≡ any (λ (e : Entry). e.path == target) entries
any-paths target [] h = refl
any-paths target (e ∷ entries) h = rw (entry-names target e h.0, any-paths target entries h.1) refl

-- An annotation lists paths, with slashes, and spaces and tabs around these, or with none, and with a
-- comma, or a line feed, or a carriage return behind each but the last. Where the paths are clean, it
-- matches a path that is not empty exactly when that path is one of them.
pub selector_matches-listed :
    (target : Str) (sep : ℕ) (entries : List Entry)
    → target ≢ []
    → (sep ≡ b',') ⊎ (sep ≡ 10) ⊎ (sep ≡ 13)
    → All IsEntry entries
    → selector_matches (listed sep (map entry_text entries)) target
      ≡ any (λ (e : Entry). e.path == target) entries
unfolding selector_matches
selector_matches-listed target sep entries ne s clean = rw (beq_of_ne target [] ne) (
    listed-any target sep (map entry_text entries) separates (empty-names target ne) (
      All-map NoSeparator entry_text entries
        (All-of-mem _ entries (λ e m. entry-NoSeparator e (All-mem _ clean m))))
    ∙ any-paths target entries clean)
  where
    separates : is_separator sep ≡ true
    separates = elim s [ inl e ↦ rw e refl | inr (inl e) ↦ rw e refl | inr (inr e) ↦ rw e refl ]
