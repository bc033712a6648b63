-- ===== src/Rdma/Create.antt =====
-- `RdmaConnection::create`: the verbs objects of a connection, and their release where a step fails.
pub mod Cleanup
use atc2025_poby.Base.{
  ℕ, ◌+◌, ◌*◌, ◌/◌, ◌%◌, Bool, true, false, Option, none, some, List, [], ◌∷◌, ◌++◌, ltb, ◌==◌,
  if◌then◌else◌, u32, u64,
}
use atc2025_poby.Memory.{Memory}
use atc2025_poby.Rdma.Connection.{
  RdmaConnection, RdmaError, success, device_info_error, comp_channel_error, pd_error, cq_error,
  mr_error, qp_error, construct,
}

pub data Resource : Type 0 where
  comp_channel pd cq mr qp : Resource

-- A call of verbs that made an object, or released one.
pub data Action : Type 0 where
  made freed : Resource → Action

-- What the system gives: `dev_context` is the error of `DevContext::create`, `base` the address of the
-- allocated memory, and `max_qp_wr` the attribute that `ibv_query_device` reports.
pub record System : Type 0 where
  pub page_size : ℕ
  pub dev_context : Option RdmaError
  pub comp_channel_made : Bool
  pub nonblocking_set : Bool
  pub pd_made : Bool
  pub device_queried : Bool
  pub port_queried : Bool
  pub max_qp_wr : ℕ
  pub cq_made : Bool
  pub notify_requested : Bool
  pub mr_made : Bool
  pub qp_made : Bool
  pub qp_initialised : Bool
  pub base : ℕ
  pub zeroed : Memory

-- `mem_size`, rounded up to pages; the division is by what `sysconf` gives.
unfoldable pub round_to_pages : ℕ → ℕ → ℕ
round_to_pages page_size mem_size =
    if mem_size % page_size == 0 then mem_size else u64 (page_size * (mem_size / page_size + 1))

unfoldable pub total_size : ℕ → ℕ → ℕ → ℕ
unfolding round_to_pages
total_size page_size mem_size mem_num = u64 (round_to_pages page_size mem_size * mem_num * 2)

-- The label that a failed step jumps to, by the objects that are released from there on.
abbrev fail_comp_channel : List Action
fail_comp_channel = []

abbrev fail_pd : List Action
fail_pd = freed comp_channel ∷ fail_comp_channel

abbrev clean_pd : List Action
clean_pd = freed pd ∷ fail_pd

abbrev clean_cq : List Action
clean_cq = freed cq ∷ clean_pd

abbrev clean_mr : List Action
clean_mr = freed mr ∷ clean_cq

abbrev clean_qp : List Action
clean_qp = freed qp ∷ clean_mr

-- The error or the connection, and the calls that made and released objects, in order.
abbrev pub Created : Type 0
Created = Option RdmaError × List Action

-- `result = error; goto label;` after the calls `before`.
abbrev fail : RdmaError → List Action → List Action → Created
fail error before label = (some error, before ++ label)

abbrev up_to_pd : List Action
up_to_pd = made comp_channel ∷ made pd ∷ []

abbrev up_to_cq : List Action
up_to_cq = up_to_pd ++ made cq ∷ []

abbrev up_to_mr : List Action
up_to_mr = up_to_cq ++ made mr ∷ []

abbrev up_to_qp : List Action
up_to_qp = up_to_mr ++ made qp ∷ []

-- From the queue pair on.
abbrev create_qp : System → Created
create_qp system =
    if system.qp_made
    then (if system.qp_initialised then (none, up_to_qp) else fail qp_error up_to_qp clean_qp)
    else fail qp_error up_to_mr clean_mr

-- From the completion queue on.
abbrev create_cq : System → Created
create_cq system =
    if system.cq_made
    then (if system.notify_requested
        then (if system.mr_made then create_qp system else fail mr_error up_to_cq clean_cq)
        else fail comp_channel_error up_to_cq clean_cq)
    else fail cq_error up_to_pd clean_pd

-- The depth of the send queue, and of the receive queue.
abbrev depth : ℕ → ℕ
depth mem_num = u32 (mem_num + 5)

-- From the protection domain on.
abbrev create_pd : System → ℕ → Created
create_pd system mem_num =
    if system.pd_made
    then (if system.device_queried
        then (if system.port_queried
            then (if ltb (system.max_qp_wr / 4) (depth mem_num)
                then fail qp_error up_to_pd clean_pd
                else create_cq system)
            else fail device_info_error up_to_pd clean_pd)
        else fail device_info_error up_to_pd clean_pd)
    else fail pd_error (made comp_channel ∷ []) fail_pd

-- The calls. Where the completion channel cannot be made non-blocking the jump is to `clean_cq`.
unfoldable pub create_objects : System → ℕ → Created
create_objects system mem_num = elim system.dev_context [
  | some error ↦ (some error, [])
  | none ↦
      if system.comp_channel_made
      then (if system.nonblocking_set
          then create_pd system mem_num
          else fail comp_channel_error (made comp_channel ∷ []) clean_cq)
      else fail comp_channel_error [] fail_comp_channel
]

abbrev connection_of : System → ℕ → ℕ → Created → Option RdmaConnection
connection_of system mem_size mem_num (some error, actions) = none
connection_of system mem_size mem_num (none, actions) =
    some
      (construct system.zeroed system.base (total_size system.page_size mem_size mem_num) mem_num)

unfoldable pub create : System → ℕ → ℕ → Option RdmaConnection
unfolding construct create_objects total_size
create system mem_size mem_num =
    connection_of system mem_size mem_num (create_objects system mem_num)

-- The destructor: what it releases, in order, of a connection that has all five.
unfoldable pub destroy : List Action
destroy = freed qp ∷ freed cq ∷ freed mr ∷ freed pd ∷ freed comp_channel ∷ []
