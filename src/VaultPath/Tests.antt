-- ===== src/VaultPath/Tests.antt =====
-- The cases of vaultpath_test.go, and the theorems at concrete keys.
use secret_control_panel.Base.{nat_eq, list_beq, ◌≡◌, refl, []}
use secret_control_panel.Text.{codes, trim, cut_byte, count}
use secret_control_panel.VaultPath.{normalize, join, split}
use secret_control_panel.VaultPath.Keys.{split-join}

join_cases_of_test :
    (join (codes "kv/") (codes "/app/db") ≡ codes "kv/app/db")
    × (join (codes "/kv/") (codes "app/db/") ≡ codes "kv/app/db")
    × (join [] (codes "app/db") ≡ codes "app/db")
    × (join (codes "kv") [] ≡ codes "kv")
    × (join [] [] ≡ [])
unfolding join normalize trim list_beq
join_cases_of_test = (refl, refl, refl, refl, refl)

split_cases_of_test :
    (split (codes "/kv/app/db/") ≡ (codes "kv", codes "app/db"))
    × (split (codes "kv") ≡ (codes "kv", []))
    × (split [] ≡ ([], []))
unfolding split normalize trim cut_byte
split_cases_of_test = (refl, refl, refl)

split-join_example : split (join (codes "kv/") (codes "/app/db")) ≡ (codes "kv", codes "app/db")
unfolding normalize trim count
split-join_example = split-join (codes "kv/") (codes "/app/db") (λ e. cc) (λ e. cc) refl
