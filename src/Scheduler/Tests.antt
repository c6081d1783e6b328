-- ===== src/Scheduler/Tests.antt =====
-- The choice among two ready tasks that have used up their ticks.
use magic_box.Prelude.{◌<◌, inl, inr, arith, [], ◌∷◌}
use magic_box.Scheduler.{Task, Threads, ready, choose}
use magic_box.Scheduler.Pick.{Among, ChooseOk, choose-ChooseOk}

abbrev two_ready : Threads
two_ready = record {
  ready_list = 3 ∷ 5 ∷ [];
  all_list = 3 ∷ 5 ∷ 0 ∷ [];
  ticks = λ t. 0;
  priority = λ t. 31;
  status = λ t. ready;
  idle_thread = 0;
}

both_known : (t : Task) → Among t (3 ∷ 5 ∷ []) → Among t (3 ∷ 5 ∷ 0 ∷ []) × (0 < 31)
both_known t (inl e) = (inl e, omega arith)
both_known t (inr (inl e)) = (inr (inl e), omega arith)
both_known t (inr (inr q)) = absurd q

choose-ChooseOk_example : ChooseOk two_ready (choose 2 two_ready)
choose-ChooseOk_example = choose-ChooseOk two_ready both_known
