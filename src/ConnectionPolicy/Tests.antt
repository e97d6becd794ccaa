-- ===== src/ConnectionPolicy/Tests.antt =====
-- The policies on concrete texts.
use channel_term.Prelude.{◌≡◌, ◌↔◌, refl, true, false, some}
use channel_term.Lease.Text.{is_empty, trim_space}
use channel_term.ConnectionPolicy.{
  auto, connect, lowered, parse, from_config, decide, opened_iff, ask,
}

parse_padded : parse " Auto\n" ≡ some auto
unfolding parse lowered trim_space
parse_padded = refl

from_config_blank : from_config "  " ≡ some ask
unfolding from_config trim_space is_empty
from_config_blank = refl

opened_iff_example :
    (decide auto true false ≡ connect)
    ↔ ((true ≡ true) × (false ≡ false) × (lowered (trim_space "AUTO") ≡ lowered "auto"))
unfolding from_config parse lowered trim_space is_empty
opened_iff_example = opened_iff "AUTO" auto true false refl
