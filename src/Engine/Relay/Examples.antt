-- ===== src/Engine/Relay/Examples.antt =====
-- tproxy.go: one relay with a buffer from the pool, and a listener that fails for a while.
use go_pass.Base.{◌≡◌, refl, true, [], ◌∷◌, some, pos}
use go_pass.Engine.Relay.{
  Buffer, default_relay_buffer_size, new_buffer, copied, relay, connection, temporary_error,
  other_error, accept_loop,
}
use go_pass.Engine.Relay.Sized.{Relayed, relay-Relayed}
use go_pass.Engine.Relay.Delays.{expected, accept_loop_lem}

abbrev whole : Buffer
whole = new_buffer default_relay_buffer_size

relay-Relayed_example :
    Relayed
      (λ size. (size, copied))
      true
      (relay (λ size. (size, copied)) true (some whole) (pos 40000) (whole ∷ []))
relay-Relayed_example =
    relay-Relayed (λ size. (size, copied)) true (some whole) (pos 40000) (whole ∷ []) (refl, refl)
      ((refl, refl), tt)

accept_loop_lem_example :
    accept_loop 0 (temporary_error ∷ temporary_error ∷ connection ∷ other_error ∷ [])
    ≡ expected 0 (temporary_error ∷ temporary_error ∷ connection ∷ other_error ∷ [])
accept_loop_lem_example =
    accept_loop_lem (temporary_error ∷ temporary_error ∷ connection ∷ other_error ∷ [])
