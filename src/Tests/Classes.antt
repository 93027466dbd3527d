-- ===== src/Tests/Classes.antt =====
-- size_class_map.h for the configurations of the source.
use riscv_mte.Base.{◌<◌, ◌≡◌, refl, arith, add64, sub64, shl64}
use riscv_mte.SizeClassMap.{
  get_size_by_class_id, get_class_id_by_size, max_size, num_classes, mid_class, mid_size, min_size,
  low_width,
}
use riscv_mte.SizeClassMap.Fixed.Lookup.{IsSmallestClass, class_id_smallest}
use riscv_mte.SizeClassMap.Fixed.Inverse.{size-lt-suc, class_id-size}
use riscv_mte.SizeClassMap.Configs.{
  default_config, default_config-IsValid, fuchsia_config, fuchsia_config-IsValid, trusty_config,
}

-- The constants that the maps compute.
default_max_size : max_size default_config ≡ 131072
unfolding max_size add64 shl64
default_max_size = refl

default_num_classes : num_classes default_config ≡ 45
unfolding num_classes mid_class mid_size min_size low_width add64 sub64 shl64
default_num_classes = refl

fuchsia_num_classes : num_classes fuchsia_config ≡ 45
unfolding num_classes mid_class mid_size min_size low_width add64 sub64 shl64
fuchsia_num_classes = refl

trusty_num_classes : num_classes trusty_config ≡ 12
unfolding num_classes mid_class mid_size min_size low_width add64 sub64 shl64
trusty_num_classes = refl

class_id_smallest_example :
    IsSmallestClass default_config default_config-IsValid 1000
      (get_class_id_by_size default_config 1000)
class_id_smallest_example =
    class_id_smallest default_config default_config-IsValid 1000 (omega (arith, default_max_size))

size-lt-suc_example :
    get_size_by_class_id fuchsia_config 20 < get_size_by_class_id fuchsia_config 21
size-lt-suc_example =
    size-lt-suc fuchsia_config fuchsia_config-IsValid 20 (omega (arith, fuchsia_num_classes))

class_id-size_example :
    get_class_id_by_size fuchsia_config (get_size_by_class_id fuchsia_config 20) ≡ 20
class_id-size_example =
    class_id-size fuchsia_config fuchsia_config-IsValid 20 (omega arith)
      (omega (arith, fuchsia_num_classes))
