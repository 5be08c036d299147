-- ===== src/NodeManager/Tests.antt =====
-- Three workers on two platforms, and two demands.
use grid_server.Base.{
  ℕ, ◌≡◌, refl, Option, none, some, List, [], ◌∷◌, arith, ◌==◌, if◌then◌else◌, Run, ok, panic,
  undefined, out_of_fuel, Returns, Returns-ok,
}
use grid_server.Platform.{
  same_platform, Platform, wasm32, x86, unix, linux, unknown_family, unknown_os,
}
use grid_server.LinkedVecMap
use grid_server.LinkedVecMap.{LinkedVecMap}
use grid_server.LinkedVecMap.Refinement.{Represents}
use grid_server.LinkedVecMap.Inserting.{inserted, from_iter-Represents}
use grid_server.LinkedVecSet
use grid_server.LinkedVecSet.{LinkedVecSet}
use grid_server.LinkedVecSet.Members.{Holds, insert_all, insert_all-Holds, new-Holds}
use grid_server.NodeManager.{
  satisfied, supports, push_worker, WorkersDemand, Matches, assign_workers,
}
use grid_server.NodeManager.Queue.{Within, given}
use grid_server.NodeManager.Rules.{Gives, assign_workers-Gives}

abbrev desktop : Platform
desktop = record { arch = x86; family = unix; os = linux }

abbrev browser : Platform
browser = record { arch = wasm32; family = unknown_family; os = unknown_os }

abbrev platforms : ℕ → Option Platform
platforms worker = if worker == 6 then some browser else some desktop

abbrev demands : List (ℕ × WorkersDemand)
demands =
    (
      1,
      record {
        provided_workers = 0;
        required_workers = some 1;
        supported_platforms = desktop ∷ [];
      },
    )
    ∷ (
      2,
      record { provided_workers = 0; required_workers = none; supported_platforms = desktop ∷ [] },
    )
    ∷ []

abbrev workers : List ℕ
workers = 4 ∷ 5 ∷ 6 ∷ 7 ∷ []

abbrev value_or_new {ℓ} : {A : Type ℓ} → A → Run A → A
value_or_new a (ok b) = b
value_or_new a panic = a
value_or_new a undefined = a
value_or_new a out_of_fuel = a

unfoldable queue : LinkedVecMap WorkersDemand
unfolding LinkedVecMap.from_iter
queue = value_or_new LinkedVecMap.new (LinkedVecMap.from_iter demands)

queue-Represents : Represents queue (inserted [] demands)
unfolding queue LinkedVecMap.from_iter
queue-Represents = Returns-ok (from_iter-Represents demands)

unfoldable unassigned : LinkedVecSet
unfolding LinkedVecSet.insert LinkedVecSet.new
unassigned = value_or_new LinkedVecSet.new (insert_all LinkedVecSet.new workers)

unassigned-Holds : Holds unassigned workers
unfolding unassigned LinkedVecSet.insert LinkedVecSet.new
unassigned-Holds = Returns-ok (insert_all-Holds LinkedVecSet.new [] workers new-Holds)

abbrev start : Matches
start = record { unassigned_workers = unassigned; workers_demands_queue = queue; map = [] }

-- The browser stops the loop, so that the last worker is left too.
blocked : (given platforms workers demands []).left ≡ 6 ∷ 7 ∷ []
unfolding satisfied supports same_platform
blocked = refl

matched : (given platforms workers demands []).map ≡ (1, 4 ∷ []) ∷ (2, 5 ∷ []) ∷ []
unfolding satisfied supports same_platform push_worker
matched = refl

demands-Within : Within demands
demands-Within = (λ r h. ground (arith, h), (λ r h. absurd (cc h), tt))

assign_workers-Gives_example :
    Returns (Gives platforms start workers demands) (assign_workers platforms 5 start)
assign_workers-Gives_example =
    assign_workers-Gives platforms start workers demands unassigned-Holds queue-Represents
      demands-Within
