-- ===== src/Tests/Commands.antt =====
-- The command queue at concrete inputs.
use conan_exiles_teamspeak.Prelude.{
  ℕ, ◌≡◌, true, false, List, [], ◌∷◌, ◌++◌, ltb, ◌==◌, if◌then◌else◌, arith, length, take, drop,
}
use conan_exiles_teamspeak.Queue.Command.{
  log_channel_list, Ts3Command, capacity, queue_drain, queue_nonempty,
}
use conan_exiles_teamspeak.Queue.Command.Drain.{Part, all_arriving, queue_drain_lem}
use conan_exiles_teamspeak.Queue.Ring.{Ring, init}
use conan_exiles_teamspeak.Queue.Ring.Refine.{contents, IsValid, init-IsValid, push-IsValid}
use conan_exiles_teamspeak.Queue.Ring

abbrev command : Ts3Command
command = record { kind = log_channel_list; u64a = 7; u64b = 0; floats = (0, 0, 0, 0); text = [] }

abbrev one_command : Ring Ts3Command
one_command = (Ring.push capacity (init capacity (λ i. command)) command).1

queue_drain_lem_example :
    let arriving : ℕ → List Ts3Command = λ n. if n == 254 then command ∷ [] else [] in
    let r : Ring Ts3Command = one_command in
    (let (executed, r') = queue_drain true arriving r in
      (stored : List Ts3Command) × Part stored (all_arriving 256 arriving)
      × (take (length (contents capacity r)) executed ≡ contents capacity r)
      × (executed ≡ take 256 (contents capacity r ++ stored))
      × (contents capacity r' ≡ drop 256 (contents capacity r ++ stored))
      × (queue_nonempty r' ≡ ltb 256 (length (contents capacity r ++ stored)))
      × IsValid capacity r')
    × (queue_drain false arriving r ≡ ([], r))
queue_drain_lem_example =
    queue_drain_lem (λ n. if n == 254 then command ∷ [] else []) one_command
      (push-IsValid capacity (init capacity (λ i. command)) command
        (init-IsValid capacity (λ i. command) (omega arith)))
