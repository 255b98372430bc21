-- ===== src/Sessions/Manager/Tests.antt =====
-- The session manager of src/opencode_a2a/execution/session_manager.py on a small database.
use opencode_a2a_serve.Base.Names.{
  ℕ, ◌+◌, String, true, false, not, Option, none, some, List, [], ◌∷◌, ◌≡◌, ◌≢◌, sym, ap, refl,
  arith,
}
use opencode_a2a_serve.Base.Equality.{◌==◌, string_eq, nat_eq, option_eq, pair_eq, if◌then◌else◌}
use opencode_a2a_serve.Base.Int.{pos}
use opencode_a2a_serve.Base.Dict.{lookup}
use opencode_a2a_serve.Tables.{delete_where}
use opencode_a2a_serve.Sessions.Database.{
  DatabaseSessions, database_repository, get_session, get_owner, get_pending_claim,
  prune_expired_pending_claims,
}
use opencode_a2a_serve.Sessions.Database.Durability.{database_repository-IsDurable}
use opencode_a2a_serve.Sessions.Claims.DatabaseClaims.{
  IsTable, database_claim_ttl, database_claim, database_repository-HasClaims,
}
use opencode_a2a_serve.Sessions.Claims.Exclusion.{claim_excludes, claim_after_release}
use opencode_a2a_serve.Sessions.Manager.{
  Manager, Claim, claimed, denied, is_foreign, claim_preferred_session, finalize_session_claim,
  release_preferred_session_claim, idle, Input, System, Event, get_or_create, finalize, run_section,
  run,
}
use opencode_a2a_serve.Sessions.Manager.Sections.{owner}
use opencode_a2a_serve.Sessions.Manager.Held.{AllSpare}
use mathlib.Core.Option.{some-injective}
use opencode_a2a_serve.Sessions.Manager.{Call, awaiting, returned, advance, end_create, forget_task}
use opencode_a2a_serve.Sessions.Database.{set_session, set_owner}
use opencode_a2a_serve.Tables.{insert_row, update_row, insert_then_update}
use opencode_a2a_serve.Sessions.Manager.Returned.{returned_session-IsOwned}
use opencode_a2a_serve.Sessions.Manager.Ownership.{IsSafe, run-IsSafe, run-KeepsOwners}

-- "s1" belongs to "ann".
abbrev state : DatabaseSessions
state = record {
  session_bindings = [];
  session_owners = ("s1", "ann") ∷ [];
  pending_session_claims = [];
  pending_claim_ttl_seconds = pos 30;
}

abbrev manager : Manager database_repository
manager = record { state_repository = state; inflight_session_creates = []; next_task = 0 }

abbrev system : System database_repository
system = record { manager = manager; call = λ _. idle }

abbrev clock : ℕ → ℕ → ℕ
clock start k = start + k

abbrev input : Option String → Input
input outcome = record { now = clock 0; outcome = outcome }

-- A section that reads the same time throughout
abbrev input_at : ℕ → Option String → Input
input_at t outcome = record { now = λ k. t; outcome = outcome }

-- "ben" asks for a session of "ann", and "ann" has a session created meanwhile.
abbrev events : List Event
events =
    get_or_create 0 "ann" "c1" none
    ∷ get_or_create 1 "ben" "c2" (some "s1")
    ∷ run_section 0 (input none)
    ∷ run_section 1 (input none)
    ∷ run_section 0 (input (some "s2"))
    ∷ []

system-IsSafe : IsSafe database_repository database_repository-IsDurable system
unfolding lookup get_session
system-IsSafe = record {
  bindings = λ i c s n h.
      absurd (ground (arith, database_repository-IsDurable.get_session_lem i c 0 state));
  calls = λ k. tt;
}

run-IsSafe_example :
    IsSafe database_repository database_repository-IsDurable (run database_repository system events)
run-IsSafe_example =
    run-IsSafe database_repository database_repository-IsDurable system events system-IsSafe

ann_named : ◌≢◌ {A = String} "ann" ""
ann_named = cc

ben_other : ◌≢◌ {A = String} "ben" "ann"
unfolding string_eq
ben_other same = let q : false ≡ true = ap (λ (s : String). s == "ann") same in absurd (cc)

run-KeepsOwners_example :
    owner database_repository database_repository-IsDurable
      (run database_repository system events).manager
      "s1"
    ≡ some "ann"
unfolding lookup get_owner string_eq
run-KeepsOwners_example =
    run-KeepsOwners database_repository database_repository-IsDurable system events "ann" "s1"
      system-IsSafe ann_named (sym (database_repository-IsDurable.get_owner_lem "s1" 0 state))

state-IsTable : IsTable state
state-IsTable = record { positive = omega arith; nodup = tt }

abbrev after_ann : Claim × Manager database_repository
after_ann = claim_preferred_session database_repository "ann" "s2" (clock 0) manager

claims : after_ann.0 ≡ claimed true
unfolding claim_preferred_session get_owner get_pending_claim prune_expired_pending_claims
    delete_where lookup string_eq option_eq
claims = refl

-- "ben" tries to get the session, and a call of "cat" has a session created.
abbrev rivals : List Event
rivals =
    get_or_create 1 "ben" "c2" (some "s2")
    ∷ run_section 1 (input_at 10 none)
    ∷ finalize 2 "ben" "c2" "s2"
    ∷ run_section 2 (input_at 12 none)
    ∷ run_section 3 (input_at 14 (some "s3"))
    ∷ []

abbrev calls : ℕ → Call
calls n = awaiting "cat" "c3" 0

rivals-AllSpare : AllSpare "ann" "s2" 2 32 rivals
unfolding string_eq
rivals-AllSpare = (
  tt,
  (
    λ k. (omega arith, omega arith),
    (refl, (λ k. (omega arith, omega arith), (λ k. (omega arith, omega arith), tt))),
  ),
)

claim_excludes_example :
    let w : System database_repository = record { manager = after_ann.1; call = calls } in
    ((claim_preferred_session database_repository "ben" "s2"
        (clock 20)
        (run database_repository w rivals).manager).0
      ≡ denied "s2")
    × ((finalize_session_claim database_repository "ben" "s2"
          (clock 20)
          (run database_repository w rivals).manager).0
        ≡ denied "s2")
claim_excludes_example =
    claim_excludes database_repository IsTable database_claim_ttl database_claim
      database_repository-HasClaims "ann" "ben" "s2" (clock 0) (clock 20) manager calls rivals
      state-IsTable ann_named ben_other claims (λ n. tt) rivals-AllSpare (omega arith)

claim_after_release_example :
    let freed = release_preferred_session_claim database_repository "ann" "s2" after_ann.1 in
    let o = (get_owner "s2" 20 freed.state_repository).0 in
    (claim_preferred_session database_repository "ben" "s2" (clock 20) freed).0
    ≡ (if is_foreign o "ben" then denied "s2" else claimed (not (o == some "ben")))
claim_after_release_example =
    claim_after_release database_repository IsTable database_claim_ttl database_claim
      database_repository-HasClaims "ann" "ben" "s2" (clock 0) (clock 20) manager state-IsTable
      claims

-- The session that the upstream created for "ann" is new.
abbrev ended : Call × Manager database_repository
ended = advance database_repository (awaiting "ann" "c1" 0) (input (some "s2")) manager

ends : ended.0 ≡ returned "s2" false
unfolding advance end_create get_owner set_session set_owner forget_task lookup string_eq
    insert_then_update insert_row update_row
ends = refl

ann_calls : ◌≢◌ {A = Option String} (some "ann") none
ann_calls e = cc

ann_is_named : ◌≢◌ {A = Option String} (some "ann") (some "")
ann_is_named e = ann_named (some-injective "ann" "" e)

returned_session-IsOwned_example :
    owner database_repository database_repository-IsDurable ended.1 "s2" ≡ some "ann"
returned_session-IsOwned_example =
    returned_session-IsOwned database_repository database_repository-IsDurable
      (awaiting "ann" "c1" 0) (input (some "s2")) manager "s2" system-IsSafe.bindings tt ann_calls
      ann_is_named ends
