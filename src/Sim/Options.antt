-- ===== src/Sim/Options.antt =====
-- The command line of the simulated boards.
use riscv_exam_computer.Base.{
  ℕ, Bool, true, not, Option, none, some, List, [], ◌∷◌, ◌++◌, ◌==◌, if◌then◌else◌, null,
  opt_filter, ok_or, Result, ok, err, ◌>>=◌, Str, txt, str_eq, trim_end_matches,
}
use Prim.Native.String.{String}
use riscv_exam_computer.Fleet.Model.{from_secs}
use riscv_exam_computer.Server.State.{parse_usize}
use riscv_exam_computer.Sim.Floats.{F64, Floats}

pub record Opts : Type 0 where
  pub server : Str
  pub count : ℕ
  pub prefix : Str
  pub chaos : F64
  pub legacy : ℕ
  pub interval : ℕ
  pub token : Option Str

-- How parsing ends other than with options: the usage text, or the message of `die`.
pub data Exit : Type 0 where
  usage : Exit
  die : Str → Exit

module _ (f : Floats) where
  open f use {lit, clamp, duration, parse}

  -- `env_token` is EXAM_AGENT_TOKEN, if it is set.
  unfoldable pub default_opts : Option Str → Opts
  unfolding txt
  default_opts env_token = record {
    server = txt "http://127.0.0.1:8000";
    count = 12;
    prefix = txt "sim-";
    chaos = lit (txt "0.0");
    legacy = 0;
    interval = from_secs 5;
    token = opt_filter (λ t. not (null t)) env_token;
  }

  abbrev num : String → Str → Result Exit ℕ
  num why v = ok_or (parse_usize v) (Exit.die (txt why))

  abbrev real : String → Str → Result Exit F64
  real why v = ok_or (parse v) (Exit.die (txt why))

  -- The options that take a value.
  unfoldable pub set_option : Str → Option (Opts → Str → Result Exit Opts)
  unfolding str_eq txt
  set_option a =
      if str_eq a (txt "--server")
      then some (λ o v. ok (record o { server = trim_end_matches (λ c. c == b'/') v }))
      else if str_eq a (txt "--count")
      then some (λ o v. num "--count must be a number" v >>= λ n. ok (record o { count = n }))
      else if str_eq a (txt "--prefix")
      then some (λ o v. ok (record o { prefix = v }))
      else if str_eq a (txt "--chaos")
      then some (λ o v. real "--chaos must be 0..1" v >>= λ p.
          ok (record o { chaos = clamp p (lit (txt "0.0")) (lit (txt "1.0")) }))
      else if str_eq a (txt "--legacy")
      then some (λ o v. num "--legacy must be a number" v >>= λ n. ok (record o { legacy = n }))
      else if str_eq a (txt "--interval")
      then some (λ o v.
        real "--interval must be seconds" v >>= λ s. ok (record o { interval = duration s }))
      else none

  abbrev is_help : Str → Bool
  is_help a = if str_eq a (txt "-h") then true else str_eq a (txt "--help")

  abbrev no_value : Str → Exit
  no_value a = if is_help a then Exit.usage else Exit.die (txt "unknown argument " ++ a)

  unfoldable pub parse_args : Opts → List Str → Result Exit Opts
  unfolding set_option
  parse_args o [] = ok o
  parse_args o (a ∷ []) = elim (set_option a) [
    | none ↦ err (no_value a)
    | some set ↦ err (Exit.die (a ++ txt " needs a value"))
  ]
  parse_args o (a ∷ v ∷ args) = elim (set_option a) [
    | none ↦ err (no_value a)
    | some set ↦ elim (set o v) [ err e ↦ err e | ok o' ↦ parse_args o' args ]
  ]
