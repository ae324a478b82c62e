-- ===== src/Server/Api.antt =====
-- app/api.rs: the server functions that the console calls.
use riscv_exam_computer.Base.{
  ℕ, Bool, not, Option, none, some, List, map, filter, null, if◌then◌else◌, ◌==◌, Result, ok, err,
  Str, txt, str_eq, split, trim,
}
use riscv_exam_computer.Proto.{JobKind, start, stop}
use riscv_exam_computer.Seb.{parse_domain_list}
use riscv_exam_computer.SebFile.Values.{Ext}
use riscv_exam_computer.Fleet.Model.{
  Fleet, Instant, Actor, ActionReport, BoardDetail, EventView, ExamView, FleetView,
}
use riscv_exam_computer.Fleet.Enqueue.{enqueue}
use riscv_exam_computer.Fleet.Exams
use riscv_exam_computer.Fleet.Admin.{rename, forget}
use riscv_exam_computer.Fleet.Views.{view, detail, events, exam_views}
use riscv_exam_computer.Auth.Digests.{agent_token_required}
use riscv_exam_computer.Server.State.{App}

unfoldable pub agent_token_missing : App → Bool
unfolding agent_token_required
agent_token_missing a = not (agent_token_required a.auth)

unfoldable pub get_fleet : App → Instant → FleetView
get_fleet a now = view a.fleet now

unfoldable pub parse_verb : Str → Option JobKind
unfolding str_eq
parse_verb verb =
    if str_eq verb (txt "start")
    then some start
    else if str_eq verb (txt "stop")
    then some stop
    else none

unfoldable pub parse_hosts : Str → List Str
parse_hosts hosts = filter (λ h. not (null h)) (map trim (split (λ c. c == b',') hosts))

abbrev with_fleet {ℓ} : {A : Type ℓ} → App → Fleet × A → App × A
with_fleet a (f, r) = (record a { fleet = f }, r)

unfoldable pub get_board : App → Str → Instant → Option BoardDetail
get_board a host now = detail a.fleet host now

unfoldable pub rename_board : App → Str → Str → ℕ → App × Result Str (Unit {0})
rename_board a host label wall_ms = with_fleet a (rename a.fleet host label wall_ms)

unfoldable pub forget_board : App → Str → ℕ → App × Result Str (Unit {0})
forget_board a host wall_ms = with_fleet a (forget a.fleet host wall_ms)

unfoldable pub delete_exam : App → Str → ℕ → App × Result Str (Unit {0})
delete_exam a id wall_ms = with_fleet a (Exams.delete_exam a.fleet id wall_ms)

unfoldable pub parse_filter : Str → Option Actor
unfolding str_eq
parse_filter f =
    if str_eq f (txt "instructor")
    then some Actor.instructor
    else if str_eq f (txt "board")
    then some Actor.board
    else if str_eq f (txt "system")
    then some Actor.system
    else none

unfoldable pub get_activity : App → Str → List EventView
unfolding parse_filter
get_activity a f = events a.fleet.log none (parse_filter f) 300

module _ (ext : Ext) where
  unfoldable pub board_action : App → Str → Str → Str → Instant → ℕ → App × Result Str ActionReport
  unfolding parse_verb parse_hosts
  board_action a hosts verb exam_id now wall_ms = elim (parse_verb verb) [
    | none ↦ (a, err (txt "Unknown action"))
    | some kind ↦
        if null (parse_hosts hosts)
        then (a, err (txt "Select at least one board"))
        else with_fleet a (
            enqueue ext a.fleet (parse_hosts hosts) kind
              (if null exam_id then none else some exam_id) now wall_ms)
  ]

  unfoldable pub list_exams : App → List ExamView
  list_exams a = exam_views ext a.fleet

  -- `id` and `salt` are what is drawn.
  unfoldable pub create_exam :
      App → Str → Str → Str → Bool → Str → Str → List ℕ → ℕ → App × Result Str Str
  create_exam a name start_url domains allow_quit access_code id salt wall_ms =
      elim (parse_domain_list domains) [
        | err why ↦ (a, err why)
        | ok allowed_domains ↦ with_fleet a (
            Exams.create_exam ext a.fleet id name
              (record {
                start_url = start_url;
                allowed_domains = allowed_domains;
                allow_quit = allow_quit;
                access_code = access_code;
              })
              salt wall_ms)
      ]
