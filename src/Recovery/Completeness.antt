-- ===== src/Recovery/Completeness.antt =====
-- recovery.py: `_validate_event_stream` accepts every step of the protocol.
use nvidia_converge.Common.{
  ◌≡◌, String, true, false, not, ◌&&◌, none, some, [], ◌∷◌, ◌++◌, ==_self, arith, opt_eq_iff,
}
use nvidia_converge.Recovery.Stream.{Stream}
use nvidia_converge.Recovery.Protocol.{
  Entry, name_of, Phase, State, CanReport, running_report, completed_report, sealed_report,
  CanRecover, running_recover, executing_recover, sealed_recover, Step, snapshot_step, release_step,
  private_step, mutating_step, finish_step, complete_step, seal_step, report_step, recover_step,
}
use nvidia_converge.Recovery.Machine.{Moves}
use nvidia_converge.Recovery.Equalities.{command_eq_self, is_bound_to_self, Releases-release_fits}
use nvidia_converge.Recovery.Simulation.{phase_of, view, is_sound, Admits}

-- The loop body follows a step of the protocol.
pub record Follows (id : String) (entry : Entry) (s : Stream) (t' : State) : Type 0 where
  pub reached : Stream
  pub admits : Admits (name_of entry) id s
  pub moves : Moves entry s reached
  pub seen : view reached ≡ t'

report_facts :
    (s : Stream)
    → is_sound s ≡ true
    → (p : Phase) → CanReport p
    → p ≡ phase_of s
    → (s.pending ≡ none)
      × (s.persistence_failure_seen ≡ false)
      × ((s.terminal && not s.allows_persistence_failure) ≡ false)
report_facts s i p running_report e = ground arith
report_facts s i p completed_report e = ground arith
report_facts s i p sealed_report e = ground arith

recover_facts : (s : Stream) (p : Phase) → CanRecover p → p ≡ phase_of s → s.terminal ≡ false
recover_facts s p running_recover e = ground arith
recover_facts s p executing_recover e = ground arith
recover_facts s p sealed_recover e = ground arith

pub Step-Follows :
    (id : String) (entry : Entry) (s : Stream) (t t' : State)
    → is_sound s ≡ true
    → s.operation_id ≡ some id
    → t ≡ view s
    → Step id t entry t'
    → Follows id entry s t'
Step-Follows id entry s t t' i same e (snapshot_step {b}) = record {
  reached = record s { binding = some b };
  admits = ground (arith, ==_self id);
  moves = ground arith;
  seen = ground arith;
}
Step-Follows id entry s t t' i same e (release_step {b} {ts} {target} fits) = record {
  reached = record s { release_targets = s.release_targets ++ (target ∷ []) };
  admits = ground (arith, ==_self id);
  moves = ground (arith, Releases-release_fits ts target fits, is_bound_to_self b);
  seen = ground arith;
}
Step-Follows id entry s t t' i same e (private_step {c} h) = record {
  reached = record s { pending = some c };
  admits = ground (arith, ==_self id);
  moves = ground arith;
  seen = ground arith;
}
Step-Follows id entry s t t' i same e (mutating_step {c} h) = record {
  reached = record s { pending = some c; mutation_possible = true };
  admits = ground (arith, ==_self id);
  moves = ground arith;
  seen = ground arith;
}
Step-Follows id entry s t t' i same e (finish_step {c}) = record {
  reached = record s { pending = none };
  admits = ground (arith, ==_self id);
  moves = ground (arith, command_eq_self c);
  seen = ground arith;
}
Step-Follows id entry s t t' i same e complete_step = record {
  reached = record s { completion_seen = true; terminal = true; allows_persistence_failure = true };
  admits = ground (arith, ==_self id);
  moves = ground arith;
  seen = ground arith;
}
Step-Follows id entry s t t' i same e seal_step = record {
  reached = record s { completion_seen = true; mutation_possible = true; sealed = true };
  admits = ground (arith, ==_self id);
  moves = ground arith;
  seen = ground arith;
}
Step-Follows id entry s t t' i same e (report_step {p} can) = record {
  reached = record s {
    persistence_failure_seen = true;
    terminal = false;
    allows_persistence_failure = false;
    sealed = true;
  };
  admits = ground (arith, ==_self id, report_facts s i p can (ground arith));
  moves = ground (arith, report_facts s i p can (ground arith));
  seen = ground arith;
}
Step-Follows id entry s t t' i same e (recover_step {p} {b} {recovery_id = recovery_id} can other) =
    record {
      reached = record s { terminal = true; allows_persistence_failure = false };
      admits = ground (arith, ==_self id, recover_facts s p can (ground arith));
      moves = ground (arith, is_bound_to_self b, opt_eq_iff (some recovery_id) (some id));
      seen = ground arith;
    }
