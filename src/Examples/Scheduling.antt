-- ===== src/Examples/Scheduling.antt =====
-- Activations of the paths [1, 2], [0] and [1, 2] again, in one storage, of which the first was
-- presented before.
use timely_dataflow.Prelude.{◌≡◌, false, [], ◌∷◌, ◌++◌, drop, length, arith}
use timely_dataflow.Sort.{sort_by}
use timely_dataflow.Activations.{
  Activations, cmp_path, same_path, dedup, activate, settle, map_active,
}
use timely_dataflow.Activations.Paths.{Within, activate_correct, settle_correct}

abbrev three : Activations
three = record {
  clean = 1;
  bounds = (0, 2) ∷ (2, 1) ∷ (3, 2) ∷ [];
  slices = 1 ∷ 2 ∷ 0 ∷ 1 ∷ 2 ∷ [];
  rx = [];
  timer = false;
  queue = [];
}

three-Within : Within three.slices three.bounds
three-Within = (omega arith, (omega arith, (omega arith, tt)))

activate_correct_example :
    (map_active (activate three (4 ∷ [])) ≡ map_active three ++ (4 ∷ []) ∷ [])
    × Within (activate three (4 ∷ [])).slices (activate three (4 ∷ [])).bounds
activate_correct_example = activate_correct three (4 ∷ []) three-Within

settle_correct_example :
    (map_active (settle three) ≡ dedup same_path (sort_by cmp_path (drop 1 (map_active three))))
    × Within (settle three).slices (settle three).bounds
    × ((settle three).clean ≡ length (map_active (settle three)))
settle_correct_example = settle_correct three three-Within
