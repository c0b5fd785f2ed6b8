-- ===== src/Agent/Startup.antt =====
-- cmd/scp-agent/main.go: the check of the flags and the registration with the panel. The POST and the
-- `select` on the context and the timer are parameters; the HTTP server is in Agent/Shutdown.
pub mod Joining
use secret_control_panel.Base.{
  ltb, leb, nat_beq, if◌then◌else◌, leb_iff, nat_beq_iff, Bool-cases, Option-cases, is_some, ◌==◌,
  ◌!=◌, nat_eq, eq_iff, eq_refl, ne_of_beq, beq_of_ne, list_beq, list_beq_iff, Eq, length, take,
  any, all, filter, find?, All, length-append, All-append, All-mem, All-of-mem, All-perm, mem-perm,
  All-take, All-map, mem-filter, mem_of-filter, length-filter-le, length-filter-lt, pos_part,
  neg_part, ◌≤ℤ◌, leb_ℤ, ℤ, pos, negsuc, ◌>>=◌, ◌>>◌, >>=-ok, Result, ok, err, Pairs, Pairs-take,
  Pairs-filter, Pairs-perm, Pairs-map, Pairs-of-map, Pairs-eq, Pairs-append-one, ℕ, zero, suc, ◌+◌,
  ◌-◌, ◌*◌, ◌%◌, ◌^◌, ◌≤◌, ◌<◌, min, max, ◌≡◌, refl, sym, ap, subst, ◌∙◌, ◌≢◌, ◌↔◌, ◌⊎◌, inl, inr,
  Bool, true, false, false≢true, not, ◌&&◌, ◌||◌, Option, none, some, List, [], ◌∷◌, ◌++◌, map,
  reverse, Memᴰ, Permᴰ, le_antisymm, le_trans, le_refl, arith,
}
use secret_control_panel.Text.{Str, str_eq}
use secret_control_panel.Wire.{Registration, auth_scheme, agent_register_path}

pub record Config : Type 0 where
  pub listen : Str
  pub url : Str
  pub cluster : Str
  pub token : Str
  pub panel_url : Str
  pub panel_token : Str
  pub log_level : Str

-- The flag that is missing.
pub data ConfigError : Type 0 where
  cluster_required : ConfigError
  url_required : ConfigError
  token_required : ConfigError
  panel_url_required : ConfigError
  panel_token_required : ConfigError

-- none where the configuration is complete.
unfoldable pub validate : Config → Option ConfigError
validate c =
    if c.cluster == []
    then some cluster_required
    else if c.url == []
    then some url_required
    else if c.token == []
    then some token_required
    else if c.panel_url == []
    then some panel_url_required
    else if c.panel_token == []
    then some panel_token_required
    else none

abbrev pub register_max_attempts : ℕ
register_max_attempts = 6

abbrev pub registration_of : Config → Registration
registration_of c = record { cluster = c.cluster; url = c.url; token = c.token }

-- `post` is the POST of a registration: the URL, the header Authorization and the body, to the
-- status code or none; `wait` is true when the timer of registerRetryInterval is first.
pub record Network (S : Type 0) : Type 0 where
  pub post : Str → Str → Registration → S → Option ℕ × S
  pub wait : S → Bool × S

-- How registerWithPanel ends.
pub data JoinResult : Type 0 where
  registered : JoinResult
  cancelled : JoinResult
  gave_up : JoinResult

module _ {S : Type 0} (net : Network S) where
  -- Whether the panel has answered with a status below 300.
  unfoldable pub post_registration : Config → S → Bool × S
  post_registration c s =
      let (status, s') =
        net.post (c.panel_url ++ agent_register_path) (auth_scheme ++ c.panel_token)
          (registration_of c) s in
      (elim status [ none ↦ false | some code ↦ ltb code 300 ], s')

  -- The loop, with the attempts that are left. It waits after the last attempt too.
  unfoldable pub attempt_registration : ℕ → Config → S → JoinResult × S
  attempt_registration zero c s = (gave_up, s)
  attempt_registration (suc left) c s =
      let (ok_answer, s') = post_registration c s in
      elim ok_answer [
        | true ↦ (registered, s')
        | false ↦
            let (timer, s'') = net.wait s' in
            elim timer [ true ↦ attempt_registration left c s'' | false ↦ (cancelled, s'') ]
      ]

  unfoldable pub register_with_panel : Config → S → JoinResult × S
  register_with_panel c s = attempt_registration register_max_attempts c s
