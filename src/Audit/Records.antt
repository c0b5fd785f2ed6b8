-- ===== src/Audit/Records.antt =====
-- Which records become events, and which secret an event names.
use mathlib.Core.List.{append_assoc}
use secret_control_panel.Base.{
  Bool-cases, Option-cases, ◌==◌, nat_eq, eq_iff, ok, ◌≡◌, refl, sym, ap, subst, ◌∙◌, ◌⊎◌, inl, inr,
  true, [], ◌++◌, arith,
}
use secret_control_panel.Text.{Str, codes, str_eq, cut_prefix, has_prefix, trim_prefix, trim_suffix}
use secret_control_panel.Text.Cut.{
  append_of-cut_prefix, append_of-has_prefix, has_prefix-append, trim_prefix-append,
  trim_suffix-append,
}
use secret_control_panel.Wire.{Time, SecretEvent}
use secret_control_panel.Audit.{RawReq, RawEntry, is_write, version_in, sub_path, parse_entry}

-- The request is for the KV v2 data of `path` in `mount`. A request path that does not begin with its
-- mount is taken as it stands.
abbrev pub IsDataOf : Str → Str → Str → Type 0
IsDataOf mount path whole =
    (whole ≡ mount ++ (codes "/" ++ (codes "data/" ++ path))) ⊎ (whole ≡ codes "data/" ++ path)

-- What an event says of its record.
pub record IsEventOf (raw : RawEntry) (ev : SecretEvent) : Type 0 where
  pub response : raw.kind ≡ codes "response"
  pub no_error : raw.error ≡ []
  pub kv : raw.request.mount_type ≡ codes "kv"
  pub write : is_write ev.operation ≡ true
  pub operation : ev.operation ≡ raw.request.operation
  pub request_id : ev.request_id ≡ raw.request.id
  pub mount : ev.mount ≡ trim_suffix raw.request.mount_point (codes "/")
  pub path : IsDataOf ev.mount ev.path raw.request.path
  pub version : ev.version ≡ version_in raw.response_version

trim_prefix_cases : (s p : Str) → (s ≡ p ++ trim_prefix s p) ⊎ (trim_prefix s p ≡ s)
unfolding trim_prefix
trim_prefix_cases s p = elim (Option-cases (cut_prefix s p)) [
  | inl e ↦ inr (rw e)
  | inr (r, e) ↦ inl (append_of-cut_prefix s p e ∙ rw e)
]

sub_path-IsDataOf :
    (mount : Str) (r : RawReq)
    → has_prefix (sub_path mount r) (codes "data/") ≡ true
    → IsDataOf mount (trim_prefix (sub_path mount r) (codes "data/")) r.path
unfolding sub_path
sub_path-IsDataOf mount r h =
    let (rest, e) = append_of-has_prefix (sub_path mount r) (codes "data/") h in
    let tail : trim_prefix (sub_path mount r) (codes "data/") ≡ rest =
      ap (λ t. trim_prefix t (codes "data/")) e ∙ trim_prefix-append (codes "data/") rest in
    elim (trim_prefix_cases r.path (mount ++ codes "/")) [
      | inl under ↦ inl (
          under
          ∙ ap (λ t. (mount ++ codes "/") ++ t) (e ∙ ap (λ t. codes "data/" ++ t) (sym tail))
          ∙ append_assoc mount (codes "/")
              (codes "data/" ++ trim_prefix (sub_path mount r) (codes "data/")))
      | inr whole ↦ inr (sym whole ∙ e ∙ ap (λ t. codes "data/" ++ t) (sym tail))
    ]

pub parse_entry-IsEventOf :
    (parse_time : Str → Time) (raw : RawEntry) {ev : SecretEvent}
    → parse_entry parse_time raw ≡ ok ev
    → IsEventOf raw ev
unfolding parse_entry
parse_entry-IsEventOf parse_time raw {ev} h = elim (Bool-cases (raw.kind == codes "response")) [
  | inr a ↦ absurd (ground arith)
  | inl a ↦ elim (Bool-cases (raw.error == [])) [
    | inr b ↦ absurd (ground arith)
    | inl b ↦ elim (Bool-cases (raw.request.mount_type == codes "kv")) [
      | inr c ↦ absurd (ground arith)
      | inl c ↦ elim (Bool-cases (is_write raw.request.operation)) [
        | inr d ↦ absurd (ground arith)
        | inl d ↦ elim (Bool-cases (has_prefix below (codes "data/"))) [
          | inr e ↦ absurd (ground arith)
          | inl e ↦ subst (IsEventOf raw) (made a b c d e) (record {
            response = (eq_iff raw.kind (codes "response")).0 a;
            no_error = (eq_iff raw.error []).0 b;
            kv = (eq_iff raw.request.mount_type (codes "kv")).0 c;
            write = d;
            operation = refl;
            request_id = refl;
            mount = refl;
            path = sub_path-IsDataOf in_mount raw.request e;
            version = refl;
          })
        ]
      ]
    ]
  ]
]
  where
    in_mount : Str
    in_mount = trim_suffix raw.request.mount_point (codes "/")

    below : Str
    below = sub_path in_mount raw.request

    found : SecretEvent
    found = record {
      time = parse_time raw.time;
      request_id = raw.request.id;
      operation = raw.request.operation;
      mount = in_mount;
      path = trim_prefix below (codes "data/");
      version = version_in raw.response_version;
    }

    made :
        (raw.kind == codes "response") ≡ true
        → (raw.error == []) ≡ true
        → (raw.request.mount_type == codes "kv") ≡ true
        → is_write raw.request.operation ≡ true
        → has_prefix below (codes "data/") ≡ true
        → found ≡ ev
    made a b c d e = ground arith

-- A response without an error of a KV engine, to a write of the data of `path` in a mount that is
-- recorded with its "/", becomes an event of that mount and path.
pub parse_entry-accepts :
    (parse_time : Str → Time) (raw : RawEntry) (mount path : Str)
    → raw.kind ≡ codes "response"
    → raw.error ≡ []
    → raw.request.mount_type ≡ codes "kv"
    → is_write raw.request.operation ≡ true
    → raw.request.mount_point ≡ mount ++ codes "/"
    → raw.request.path ≡ (mount ++ codes "/") ++ (codes "data/" ++ path)
    → (ev : SecretEvent) × (parse_entry parse_time raw ≡ ok ev)
      × (ev.mount ≡ mount)
      × (ev.path ≡ path)
parse_entry-accepts parse_time raw mount path a b c d m p =
    let mounted : trim_suffix raw.request.mount_point (codes "/") ≡ mount =
      ap (λ t. trim_suffix t (codes "/")) m ∙ trim_suffix-append mount (codes "/") in
    let below : sub_path mount raw.request ≡ codes "data/" ++ path =
      unfold sub_path in
      ap (λ t. trim_prefix t (mount ++ codes "/")) p
      ∙ trim_prefix-append (mount ++ codes "/") (codes "data/" ++ path) in
    let under_data : has_prefix (sub_path mount raw.request) (codes "data/") ≡ true =
      ap (λ t. has_prefix t (codes "data/")) below ∙ has_prefix-append (codes "data/") path in
    let tail : trim_prefix (sub_path mount raw.request) (codes "data/") ≡ path =
      ap (λ t. trim_prefix t (codes "data/")) below ∙ trim_prefix-append (codes "data/") path in
    (
      record {
        time = parse_time raw.time;
        request_id = raw.request.id;
        operation = raw.request.operation;
        mount = mount;
        path = path;
        version = version_in raw.response_version;
      },
      unfold parse_entry in
          rw (
            (eq_iff raw.kind (codes "response")).1 a,
            (eq_iff raw.error []).1 b,
            (eq_iff raw.request.mount_type (codes "kv")).1 c,
            d,
            mounted,
            under_data,
            tail,
          ),
      refl,
      refl,
    )
