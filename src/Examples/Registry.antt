-- ===== src/Examples/Registry.antt =====
-- Runners and single commands (server/internal/store/postgres/store.go) at concrete inputs.
use jackrabbit.Base.{[], ◌∙◌, ◌⊎◌, false, fits_int4, ◌+ℤ◌, ℤ, ◌≡◌, refl, some, none, true}
use jackrabbit.Models.{UpdateCommandOpts}
use jackrabbit.Results.{ok, err, not_found, failed}
use jackrabbit.Db.Runners.{has_texts, get_runner, increment_runner_active_count}
use jackrabbit.Db.Runners.{upsert_runner}
use jackrabbit.Db.State.{has_nul}
use jackrabbit.Db.Runners.Upsert.{upsert_runner_lem}
use jackrabbit.Db.Runners.Presence.{increment_runner_active_count_lem}
use jackrabbit.Db.Commands.{get_command}
use jackrabbit.Examples.Samples.{runner, alpha, beta, to_alpha, on_alpha, db, db-IsValid}

get-alpha : get_runner db "alpha" ≡ ok alpha
unfolding get_runner jackrabbit.Table.Rows.find
get-alpha = refl

get-beta : get_runner db "beta" ≡ ok beta
unfolding get_runner jackrabbit.Table.Rows.find
get-beta = refl

get-to_alpha : get_command db 1 ≡ ok to_alpha
unfolding get_command jackrabbit.Table.Rows.find
get-to_alpha = refl

get-on_alpha : get_command db 3 ≡ ok on_alpha
unfolding get_command jackrabbit.Table.Rows.find
get-on_alpha = refl

get-9 : get_command db 9 ≡ err not_found
unfolding get_command jackrabbit.Table.Rows.find
get-9 = refl

abbrev options : UpdateCommandOpts
options = record {
  exit_code = some (ℤ.pos 0);
  error_message = none;
  started_at = none;
  finished_at = none;
}

given_texts : has_texts (runner "alpha" [] "online" 0) ≡ true
unfolding has_texts has_nul
given_texts = refl

upsert_runner_lem_example :
    let (result, db') = upsert_runner db (runner "alpha" [] "online" 0) 70 in
    (result ≡ ok tt)
    × (get_runner db' "alpha"
        ≡ ok (record (runner "alpha" [] "online" 1) { last_seen = some 70; updated_at = 70 }))
    × (get_runner db' "beta" ≡ ok beta)
upsert_runner_lem_example = (
  (upsert_runner_lem db (runner "alpha" [] "online" 0) 70 db-IsValid (given_texts, refl, refl)).0,
  (upsert_runner_lem db (runner "alpha" [] "online" 0) 70 db-IsValid (given_texts, refl, refl)).2
      alpha get-alpha,
  (upsert_runner_lem db (runner "alpha" [] "online" 0) 70 db-IsValid (given_texts, refl, refl)).3
        "beta" (λ e. cc)
      ∙ get-beta,
)

increment_runner_active_count_lem_example :
    ((fits_int4 (ℤ.pos 1 +ℤ ℤ.negsuc 0) ≡ true)
      × (increment_runner_active_count db "alpha" (ℤ.negsuc 0)).0 ≡ ok tt
      × get_runner (increment_runner_active_count db "alpha" (ℤ.negsuc 0)).1 "alpha"
        ≡ ok (record alpha { active_count = ℤ.pos 0; updated_at = 60 }))
    ⊎ ((fits_int4 (ℤ.pos 1 +ℤ ℤ.negsuc 0) ≡ false)
        × (increment_runner_active_count db "alpha" (ℤ.negsuc 0)).0
          ≡ err (failed "increment active count")
        × (increment_runner_active_count db "alpha" (ℤ.negsuc 0)).1 ≡ db)
increment_runner_active_count_lem_example =
    (increment_runner_active_count_lem db "alpha" (ℤ.negsuc 0) db-IsValid).0 alpha get-alpha
