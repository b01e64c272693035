-- ===== src/Server/Handlers/Runners/Reports.antt =====
-- ReportResult of server/internal/api/handlers/runners.go, on PostgreSQL.
use jackrabbit.Base.{
  String, ℤ, ◌+ℤ◌, fits_int4, ◌≡◌, refl, sym, ap, subst, ◌∙◌, inl, inr, true, some,
}
use jackrabbit.Models.{Time, Uuid, Command, Runner}
use jackrabbit.Results.{ok}
use jackrabbit.Table
use jackrabbit.Table.Keys.{Distinct-update}
use jackrabbit.Db.{Db, IsValid}
use jackrabbit.Db.State.{coalesce, has_id, id_of}
use jackrabbit.Db.Runners.{get_runner, increment_runner_active_count}
use jackrabbit.Db.Runners.Presence.{increment_runner_active_count_lem}
use jackrabbit.Db.Commands.{get_command, update_command_status, fits_exit_code, with_status}
use jackrabbit.Db.Commands.Counting.{get_command-increment_runner_active_count}
use jackrabbit.Db.Commands.Status.{update_command_status_lem}
use jackrabbit.Db.Notify.{Engine}
use jackrabbit.Server.Store.{postgres}
use jackrabbit.Server.Http.{respond, empty}
use jackrabbit.Server.Handlers.Runners.{ResultRequest, result_opts, report_result, finish}

module _ (e : Engine) (db : Db) (slug : String) (req : ResultRequest) (now : Time) (id : Uuid)
    (fits : fits_exit_code req.exit_code ≡ true) where
  abbrev updated : Db
  updated = (update_command_status db id req.status (result_opts req now)).1

  updated_rows : (update_command_status db id req.status (result_opts req now)).1 ≡ record db {
    commands = Table.update (has_id id) (with_status req.status (result_opts req now)) db.commands;
  }
  unfolding update_command_status
  updated_rows = rw fits refl

  updated-IsValid : IsValid db → IsValid updated
  updated-IsValid v = subst IsValid (sym updated_rows) (record {
    slugs_distinct = v.slugs_distinct;
    ids_distinct =
        Distinct-update id_of (has_id id) (with_status req.status (result_opts req now)) db.commands
          (λ c. unfold with_status in refl) v.ids_distinct;
  })

  same_runners : get_runner updated slug ≡ get_runner db slug
  unfolding get_runner
  same_runners = ap (λ d. get_runner d slug) updated_rows

  finished :
      e.parse_uuid req.command_id ≡ some id
      → (update_command_status db id req.status (result_opts req now)).0 ≡ ok tt
      → report_result (postgres e) e.parse_uuid now db slug (some req)
        ≡ (respond 204 empty, (increment_runner_active_count updated slug (ℤ.negsuc 0)).1)
  unfolding report_result finish
  finished parses done = rw (report_result, parses, done) refl

-- Where keys are distinct, a result that is reported for a known command by a known runner, with an
-- exit code that fits its column, is answered with 204. The command's row gets the status, and the
-- exit code and message if they are given, and is finished now; and the runner's count of active
-- commands goes down by one. That count must fit its column, and the text of the identifier must be
-- one of a UUID.
pub report_result_lem :
    (e : Engine) (db : Db) (slug : String) (req : ResultRequest) (now : Time) (id : Uuid)
    (c : Command) (r : Runner)
    → IsValid db
    → e.parse_uuid req.command_id ≡ some id
    → fits_exit_code req.exit_code ≡ true
    → get_command db id ≡ ok c
    → get_runner db slug ≡ ok r
    → fits_int4 (r.active_count +ℤ ℤ.negsuc 0) ≡ true
    → let (response, db') = report_result (postgres e) e.parse_uuid now db slug (some req) in
      (response ≡ respond 204 empty)
      × (get_command db' id
          ≡ ok (record c {
            status = req.status;
            exit_code = coalesce req.exit_code c.exit_code;
            error_message = coalesce req.error_message c.error_message;
            finished_at = some now;
          }))
      × (get_runner db' slug
          ≡ ok (record r { active_count = r.active_count +ℤ ℤ.negsuc 0; updated_at = db.now }))
report_result_lem e db slug req now id c r v parses fits known here room =
    let (done, row) =
      (update_command_status_lem db id req.status (result_opts req now)).0 c fits known in
    let before = updated e db slug req now id fits in
    let counted =
      (increment_runner_active_count_lem before slug (ℤ.negsuc 0)
          (updated-IsValid e db slug req now id fits v)).0
        r (same_runners e db slug req now id fits ∙ here) in
    rw (finished e db slug req now id fits parses done) (
      refl,
      get_command-increment_runner_active_count before slug (ℤ.negsuc 0) id ∙ row,
      elim counted [
        | inl (fine, ok_result, runner_row) ↦
            runner_row
            ∙ ap
                (λ t. ok (record r { active_count = r.active_count +ℤ ℤ.negsuc 0; updated_at = t }))
                (ap (λ d. d.now) (updated_rows e db slug req now id fits))
        | inr (bad, failed_result, same) ↦ absurd (cc (bad, room))
      ],
    )
