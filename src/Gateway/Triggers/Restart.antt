-- ===== src/Gateway/Triggers/Restart.antt =====
-- What a changed trigger means for the next start of the gateway and for the next message.
use st_tools.Prelude.{
  ◌≡◌, ◌⊎◌, refl, ap, ◌∙◌, String, some, List, [], ◌∷◌, get_or, arith, inl, inr, Option-cases,
  eq_refl,
}
use st_tools.Prelude.Dict.{lookup, lookup-insert}
use st_tools.Prelude.Exec.{ok}
use st_tools.BuildHandler.{Service}
use st_tools.Gateway.{Gateway, Message, not_allowed, save_config, init}
use st_tools.Gateway.Actions.{installed}
use st_tools.Gateway.Server.{Request, forward_to, write, first_unknown, serve_actions, serve}
use st_tools.Gateway.Triggers.{
  Operation, update, delete, other, warn, delete_trigger, update_trigger,
}

-- Nothing of the configuration changes.
abbrev pub SameConfig : Gateway → Gateway → Type 0
SameConfig g h =
    (h.triggers ≡ g.triggers) × (h.forward_to ≡ g.forward_to) × (h.config_file ≡ g.config_file)

-- The next start finds the triggers, and no host to forward to.
abbrev pub Restarts : Gateway → Service → Type 0
Restarts h b =
    (v : Gateway) × (init h.config_file b ≡ ok v) × (v.triggers ≡ h.triggers) × (v.forward_to ≡ [])

delete-Restarts :
    (to trigger : String) (g : Gateway) (b : Service)
    → let h = delete_trigger to trigger g in SameConfig g h ⊎ Restarts h b
unfolding delete_trigger save_config init
delete-Restarts to trigger g b = elim (Option-cases (lookup trigger g.triggers)) [
  | inl e ↦ inl (simp (e, delete_trigger) (refl, refl, refl))
  | inr (l, e) ↦ inr (simp (e, delete_trigger) (_, refl, refl, refl))
]

-- A change of a trigger leaves the configuration as it was, or the next start of the gateway finds
-- the triggers as they now are; it then forwards to no host, whatever was configured.
pub update_trigger-Restarts :
    (to : String) (op : Operation) (trigger : String) (actions : List String) (g : Gateway)
    (b : Service)
    → let h = update_trigger to op trigger actions g in SameConfig g h ⊎ Restarts h b
unfolding update_trigger save_config init
update_trigger-Restarts to update trigger actions g b = inr (_, refl, refl, refl)
update_trigger-Restarts to delete trigger actions g b = delete-Restarts to trigger g b
update_trigger-Restarts to other trigger actions g b = inl (refl, refl, refl)

warn-same :
    (to : String) (l : List String) (g : Gateway)
    → ((warn to l g).triggers ≡ g.triggers) × ((warn to l g).builds ≡ g.builds)
unfolding warn
warn-same to [] g = (refl, refl)
warn-same to (a ∷ l) g = elim (Option-cases (installed a)) [
  | inl e ↦ simp (e, warn) (warn-same to l _)
  | inr (x, e) ↦ simp (e, warn) (warn-same to l g)
]

refused :
    (l : List String) (x : String) (r : Request) (g : Gateway)
    → first_unknown l ≡ some x
    → serve_actions l r g ≡ write r.answers (not_allowed x) g
unfolding first_unknown serve_actions
refused [] x r g e = cc
refused (a ∷ l) x r g e = simp (e, serve_actions) refl

-- A trigger whose actions are not all known is stored with them all the same, and calls nothing of the
-- build handler. A message of the trigger is then forwarded, and answered, if it asks for an answer,
-- with the first action that is not known; this is all that it does, so that none of its actions is
-- carried out.
pub update_trigger_unknown :
    (to trigger x : String) (actions : List String) (m : Message) (r : Request) (g : Gateway)
    → first_unknown actions ≡ some x
    → r.trigger ≡ trigger
    → let h = update_trigger to update trigger actions g in
      (lookup trigger h.triggers ≡ some actions)
      × (h.builds ≡ g.builds)
      × (serve m r h ≡ write r.answers (not_allowed x) (forward_to m h))
unfolding update_trigger save_config serve
update_trigger_unknown to trigger x actions m r g e t =
    let h = update_trigger to update trigger actions g in
    let stored : lookup trigger h.triggers ≡ some actions = ground (
      arith,
      lookup-insert trigger trigger actions (warn to actions g).triggers,
      eq_refl trigger,
    ) in
    let found : lookup r.trigger h.triggers ≡ some actions =
      ap (λ k. lookup k h.triggers) t ∙ stored in
    (
      stored,
      (warn-same to actions g).1,
      ap (λ l. serve_actions (get_or l []) r (forward_to m h)) found
          ∙ refused actions x r (forward_to m h) e,
    )
