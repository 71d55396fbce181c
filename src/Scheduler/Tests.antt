-- ===== src/Scheduler/Tests.antt =====
-- A concrete scheduler, and the theorems of the directory at it. Floats are fractions here.
use zipp.Base.{◌≡◌, [], ◌∷◌, true, false, Returns, ◌⊎◌, panic}
use zipp.Base.Fractions.{frac, fractions}
use zipp.Schedulerutils.AccessManaCache as Cache
use zipp.Schedulerutils.Examples.{full, full-IsValid, block}
use zipp.Scheduler.{
  Scheduler, World, update_children, update_active_nodes_list, update_deficit, deficit_of,
}
use zipp.Scheduler
use zipp.Scheduler.Rat
use zipp.Scheduler.Nodes.{Prunes, update_active_nodes_list_lem}
use zipp.Scheduler.Children.{Updates as ChildUpdates, update_children_lem}
use zipp.Scheduler.Safety.{Updates, update_deficit_lem}

-- A running scheduler with the full buffer, in which every node has a deficit of 10 bytes.
abbrev scheduler : Scheduler fractions
scheduler = record {
  buffer = full;
  deficits = (7, Rat.of_int 10) ∷ (8, Rat.of_int 10) ∷ (9, Rat.of_int 10) ∷ [];
  cache = Cache.create fractions (frac 1 0);
  started = true;
  stopped = false;
  rate = 5;
  confirmed_threshold = 60;
  metadata = [];
  events = [];
}

abbrev world : World fractions
world = record {
  now = 0;
  mana_vector = [];
  total_mana = frac 9 0;
  blocks = [];
  children = λ id. [];
  is_confirmed = λ id. false;
}

-- Node 9 has neither mana nor blocks.
update_active_nodes_list_lem_example :
    Returns
      (Prunes fractions ((5, frac 2 0) ∷ (7, frac 3 0) ∷ []) scheduler)
      (update_active_nodes_list fractions ((5, frac 2 0) ∷ (7, frac 3 0) ∷ []) scheduler)
update_active_nodes_list_lem_example =
    update_active_nodes_list_lem fractions ((5, frac 2 0) ∷ (7, frac 3 0) ∷ []) scheduler
      full-IsValid

update_deficit_lem_example :
    ((Rat.is_negative (Rat.add (deficit_of scheduler.deficits 8) (Rat.neg_int 4)) ≡ true)
      × (update_deficit scheduler.deficits 8 (Rat.neg_int 4) ≡ panic))
    ⊎ ((Rat.is_negative (Rat.add (deficit_of scheduler.deficits 8) (Rat.neg_int 4)) ≡ false)
        × Returns
            (Updates scheduler.deficits 8)
            (update_deficit scheduler.deficits 8 (Rat.neg_int 4)))
update_deficit_lem_example = update_deficit_lem scheduler.deficits 8 (Rat.neg_int 4)

-- Block 3 of node 8 is stored without parents, so that it becomes ready.
abbrev stored : World fractions
stored = record world { blocks = (3, record { element = block 3 8 5; parents = [] }) ∷ [] }

update_children_lem_example :
    Returns
      (ChildUpdates fractions stored (3 ∷ 4 ∷ []) scheduler)
      (update_children fractions stored (3 ∷ 4 ∷ []) scheduler)
update_children_lem_example =
    update_children_lem fractions stored (3 ∷ 4 ∷ []) scheduler full-IsValid
