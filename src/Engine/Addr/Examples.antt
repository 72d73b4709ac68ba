-- ===== src/Engine/Addr/Examples.antt =====
-- windivert.go: a private address in the switch and in the list of blocks.
use go_pass.Base.{◌≡◌, arith}
use go_pass.Engine.Addr.{is_private_or_local4}
use go_pass.Engine.Addr.Blocks.{in_blocks, value4, exempt_blocks, is_private_or_local4-in_blocks}

is_private_or_local4-in_blocks_example :
    is_private_or_local4 172 20 0 1 ≡ in_blocks (value4 172 20 0 1) exempt_blocks
is_private_or_local4-in_blocks_example =
    is_private_or_local4-in_blocks 172 20 0 1 (omega arith) (omega arith) (omega arith)
      (omega arith)
