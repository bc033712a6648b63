-- ===== src/Rdma/Create/Cleanup.antt =====
-- The verbs objects that `create` and the destructor of RdmaConnection.cc leave.
use atc2025_poby.Base.{
  ℕ, ◌≡◌, refl, true, Option, none, some, List, [], ◌∷◌, arith, ◌>>=◌, if◌then◌else◌, ◌==◌,
}
use atc2025_poby.Rdma.Create.{
  Resource, Action, made, freed, comp_channel, pd, cq, mr, qp, System, create_objects, destroy,
}

abbrev rank : Resource → ℕ
rank comp_channel = 0
rank pd = 1
rank cq = 2
rank mr = 3
rank qp = 4

-- The release of an object that is not there is a fault.
abbrev without : Resource → List Resource → Option (List Resource)
without r [] = none
without r (x ∷ xs) =
    let rest = without r xs in if rank r == rank x then some xs else (rest >>= λ ys. some (x ∷ ys))

-- The objects that there are after the calls.
abbrev pub live_after : List Action → List Resource → Option (List Resource)
live_after [] live = some live
live_after (made r ∷ actions) live = live_after actions (r ∷ live)
live_after (freed r ∷ actions) live = without r live >>= live_after actions

abbrev pub all_objects : List Resource
all_objects = qp ∷ mr ∷ cq ∷ pd ∷ comp_channel ∷ []

-- Unless the completion channel cannot be made non-blocking, creation releases each object that it
-- made, once, when it fails, and keeps all five when it succeeds.
pub create_objects-clean :
    (system : System) (mem_num : ℕ)
    → system.nonblocking_set ≡ true
    → live_after (create_objects system mem_num).1 []
      ≡ some (elim (create_objects system mem_num).0 [ none ↦ all_objects | some error ↦ [] ])
unfolding create_objects
create_objects-clean system mem_num nonblocking = ground arith

-- The destructor releases all five, once.
pub destroy-clean : live_after destroy all_objects ≡ some []
unfolding destroy
destroy-clean = refl
