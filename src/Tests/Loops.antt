-- ===== src/Tests/Loops.antt =====
-- A run of the managed loop.
use gloam_macro_commands.Common.{ℕ, suc, ◌≤◌, ◌≡◌, refl, List, [], ◌∷◌, length}
use gloam_macro_commands.Error.{ok}
use gloam_macro_commands.Exec.{Exec}
use gloam_macro_commands.Discord.{ready, dispatch}
use gloam_macro_commands.Registration.{CreateCommand, global, Overwrite}
use gloam_macro_commands.Dispatch.{Framework, prepare_dispatch}
use gloam_macro_commands.Managed.{finished, Round, drive_shards}
use gloam_macro_commands.Managed.Announcements.{first_ready, published}
use gloam_macro_commands.Managed.Synchronization.{drive_shards-once, drive_shards-synchronizations}
use gloam_macro_commands.Tests.Counters.{counters}
use gloam_macro_commands.Tests.Dispatching.{framework, two_each}

abbrev global_framework : Framework ℕ
global_framework = record framework { registration = global }

abbrev unchanged : CreateCommand → CreateCommand
unchanged c = c

abbrev accept_all : Overwrite CreateCommand → Exec ℕ (List ℕ)
accept_all q w = (suc w, ok [])

abbrev ready_round : Round
ready_round = record {
  completed = finished (ok tt) ∷ [];
  event = ok (dispatch "READY" (ok (ready 5)));
  shard_id = 0;
  response_state = 0;
}

abbrev rounds : List Round
rounds = ready_round ∷ ready_round ∷ []

ends : (drive_shards counters unchanged accept_all global_framework rounds [] 0 two_each).1 ≡ ok tt
unfolding drive_shards prepare_dispatch
ends = refl

drive_shards-once_example :
    length
      (drive_shards counters unchanged accept_all global_framework rounds [] 0
        two_each).0.synchronizations
    ≤ 1
drive_shards-once_example =
    drive_shards-once counters unchanged accept_all global_framework rounds [] 0 two_each

drive_shards-synchronizations_example :
    (drive_shards counters unchanged accept_all global_framework rounds [] 0
      two_each).0.synchronizations
    ≡ published global (first_ready rounds)
drive_shards-synchronizations_example =
    drive_shards-synchronizations counters unchanged accept_all global_framework rounds [] 0
      two_each ends
