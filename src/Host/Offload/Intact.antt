-- ===== src/Host/Offload/Intact.antt =====
-- `completeTask` of src/host/client/offload_client_epoll.cc where an erased task still reads as before.
use atc2025_poby.Base.{
  ℕ, ◌+◌, ◌≡◌, refl, sym, ap, ◌∙◌, inl, inr, Option, some, List, [], ◌∷◌, ◌++◌, String, ◌==◌,
  if◌then◌else◌, ◌>>=◌, Bool-cases, Option-cases, u32,
}
use atc2025_poby.Host.Offload.{
  OffloadClient, TaskInfo, UntarResult, find, erase, update, response_for, completed, complete_task,
  complete_tasks,
}

abbrev pub completed_intact : OffloadClient → String → TaskInfo → OffloadClient
completed_intact c image task =
    let count = u32 (task.untar_layers + 1) in
    if count == task.total_layers
    then record c {
      tasks = erase image c.tasks;
      responses = c.responses ++ (task.conn, response_for image) ∷ [];
    }
    else record c { tasks = update image (record task { untar_layers = count }) c.tasks }

abbrev pub complete_task_intact : OffloadClient → UntarResult → Option OffloadClient
complete_task_intact c res =
    find res.image_name_tag c.tasks >>= λ task. some (completed_intact c res.image_name_tag task)

abbrev pub complete_tasks_intact : List UntarResult → OffloadClient → Option OffloadClient
complete_tasks_intact [] c = some c
complete_tasks_intact (res ∷ rest) c = complete_task_intact c res >>= complete_tasks_intact rest

module _ (erased : TaskInfo → Option ℕ) (intact : (t : TaskInfo) → erased t ≡ some t.conn) where
  completed-intact :
      (c : OffloadClient) (image : String) (task : TaskInfo)
      → completed erased c image task ≡ some (completed_intact c image task)
  completed-intact c image task =
      let counted = record task { untar_layers = u32 (task.untar_layers + 1) } in
      elim (Bool-cases (u32 (task.untar_layers + 1) == task.total_layers)) [
        | inl last ↦ rw last (
            ap
              (λ o. o >>= λ conn. some (record c {
                tasks = erase image c.tasks;
                responses = c.responses ++ (conn, response_for image) ∷ [];
              }))
              (intact counted))
        | inr more ↦ rw more refl
      ]

  complete_task-intact :
      (c : OffloadClient) (res : UntarResult)
      → complete_task erased c res ≡ complete_task_intact c res
  unfolding complete_task
  complete_task-intact c res = elim (Option-cases (find res.image_name_tag c.tasks)) [
    | inl gone ↦
        ap (λ o. o >>= λ task. completed erased c res.image_name_tag task) gone
        ∙ sym (ap (λ o. o >>= λ task. some (completed_intact c res.image_name_tag task)) gone)
    | inr (task, found) ↦
        ap (λ o. o >>= λ task. completed erased c res.image_name_tag task) found
        ∙ completed-intact c res.image_name_tag task
        ∙ sym (ap (λ o. o >>= λ task. some (completed_intact c res.image_name_tag task)) found)
  ]

  pub complete_tasks-intact :
      (results : List UntarResult) (c : OffloadClient)
      → complete_tasks erased results c ≡ complete_tasks_intact results c
  unfolding complete_tasks
  complete_tasks-intact [] c = refl
  complete_tasks-intact (res ∷ rest) c =
      ap (λ o. o >>= complete_tasks erased rest) (complete_task-intact c res)
      ∙ (elim (Option-cases (complete_task_intact c res)) [
        | inl gone ↦
            ap (λ o. o >>= complete_tasks erased rest) gone
            ∙ sym (ap (λ o. o >>= complete_tasks_intact rest) gone)
        | inr (c', went) ↦
            ap (λ o. o >>= complete_tasks erased rest) went
            ∙ complete_tasks-intact rest c'
            ∙ sym (ap (λ o. o >>= complete_tasks_intact rest) went)
      ])
