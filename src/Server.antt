-- ===== src/Server.antt =====
-- The CoAP servers of the nodes: RESOURCE declares a resource with its handlers, and
-- `coap_server_process` activates resources under their paths. Which handler a request reaches is the
-- CoAP engine's business, a parameter.
use io_t_project.Prelude.{
  ℕ, ◌≡◌, refl, ap, inl, inr, ◌⊎◌, Bool-cases, Bool, true, false, Option, none, some, List, [], ◌∷◌,
  ◌&&◌, Bytes, ◌==◌, if◌then◌else◌, arith,
}
use io_t_project.Coap.{Payload}
pub mod BatteryNode
pub mod BatteryRuns
pub mod Producer
pub mod Lifetimes
pub mod ProducerRuns
pub mod Quiet
pub mod Reports

pub data Method : Type 0 where
  method_get method_post method_put method_delete : Method

-- The handlers of RESOURCE, in its order; `none` is a null pointer.
pub record Resource (Handler : Type 0) : Type 0 where
  pub get_handler : Option Handler
  pub post_handler : Option Handler
  pub put_handler : Option Handler
  pub delete_handler : Option Handler

-- A request as the engine has parsed it. The query variable `color` and the post variable `mode` have
-- no bytes where they are missing.
pub record Request : Type 0 where
  pub path : Bytes
  pub method : Method
  pub payload : Payload
  pub color : Bytes
  pub mode : Bytes
  -- what may be read behind `mode`, in the message that it stands in
  pub behind_mode : Bytes
  -- the room for a reply
  pub preferred_size : ℕ

module _ {Handler : Type 0} where
  abbrev pub handler_of : Method → Resource Handler → Option Handler
  handler_of method_get r = r.get_handler
  handler_of method_post r = r.post_handler
  handler_of method_put r = r.put_handler
  handler_of method_delete r = r.delete_handler

  -- The table has a resource under the path, with the handler for the method.
  abbrev pub Serves : List (Bytes × Resource Handler) → Bytes → Method → Handler → Type 0
  Serves [] path method h = ⊥
  Serves ((p, r) ∷ table) path method h =
      (p ≡ path) × (handler_of method r ≡ some h) ⊎ Serves table path method h

-- Contiki-NG's CoAP engine calls only handlers of activated resources, by path and method; `none` is a
-- request that it answers itself.
pub record Engine (Handler : Type 0) : Type 0 where
  pub route : List (Bytes × Resource Handler) → Bytes → Method → Option Handler
  pub route-Serves :
      (table : List (Bytes × Resource Handler)) (path : Bytes) (method : Method) (h : Handler)
      → route table path method ≡ some h
      → Serves table path method h

unfoldable pub same_bytes : Bytes → Bytes → Bool
same_bytes [] [] = true
same_bytes [] (d ∷ t) = false
same_bytes (c ∷ s) [] = false
same_bytes (c ∷ s) (d ∷ t) = c == d && same_bytes s t

same_bytes-eq : (s t : Bytes) → same_bytes s t ≡ true → s ≡ t
unfolding same_bytes
same_bytes-eq [] [] e = refl
same_bytes-eq [] (d ∷ t) e = cc
same_bytes-eq (c ∷ s) [] e = cc
same_bytes-eq (c ∷ s) (d ∷ t) e =
    let tails = same_bytes-eq s t (ground arith) in let heads : c ≡ d = ground arith in cc

module _ {Handler : Type 0} where
  unfoldable pub first_route : List (Bytes × Resource Handler) → Bytes → Method → Option Handler
  first_route [] path method = none
  first_route ((p, r) ∷ table) path method =
      if same_bytes p path then handler_of method r else first_route table path method

  pub first_route-Serves :
      (table : List (Bytes × Resource Handler)) (path : Bytes) (method : Method) (h : Handler)
      → first_route table path method ≡ some h
      → Serves table path method h
  unfolding first_route
  first_route-Serves [] path method h e = cc
  first_route-Serves ((p, r) ∷ table) path method h e = elim (Bool-cases (same_bytes p path)) [
    | inl same ↦ inl (same_bytes-eq p path same, rw same at e)
    | inr other ↦ inr (first_route-Serves table path method h (rw other at e))
  ]

  -- The law can be met: the first resource with the path.
  abbrev pub first_match : Engine Handler
  unfolding first_route
  first_match = record { route = first_route; route-Serves = first_route-Serves }
