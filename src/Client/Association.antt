-- ===== src/Client/Association.antt =====
-- Sequences of MLME events and the association state.
use dumbos_platform_system_c.Base.{
  ◌≡◌, refl, Bool, true, false, List, [], ◌∷◌, ◌++◌, Option, none, some, if◌then◌else◌, Bytes,
  zeros, Bool-cases, inl, inr,
}
use dumbos_platform_system_c.Mlme.{MlmeEvent}
use dumbos_platform_system_c.Manager.Dispatch.{
  MlmeKind, on_connect, on_associate, on_roam, on_disconnect, on_disassociate,
}
use dumbos_platform_system_c.Results.{NativeScanResult}
use dumbos_platform_system_c.Client.{
  Client, refresh_associate_freq, associate, succeeded, handle_mlme_event,
}

-- An event with what GetScanResult answers in its handler.
pub record Report : Type 0 where
  pub scan : Option (List NativeScanResult)
  pub kind : MlmeKind
  pub event : MlmeEvent

unfoldable pub handle_all : List Report → Client → Client
handle_all [] c = c
handle_all (r ∷ rs) c = handle_all rs (handle_mlme_event r.scan r.kind r.event c)

-- The events that leave the interface associated.
abbrev pub associates : MlmeKind → MlmeEvent → Bool
associates on_connect event = succeeded event
associates on_associate event = succeeded event
associates on_roam event = true
associates on_disconnect event = false
associates on_disassociate event = false

-- What an event decides.
abbrev pub Decides : MlmeKind → MlmeEvent → Client → Type 0
Decides kind event c =
    (c.is_associated ≡ associates kind event)
    × (c.bssid ≡ (if associates kind event then event.bssid else zeros 6))

associate-decides :
    (scan : Option (List NativeScanResult)) (bssid : Bytes) (c : Client)
    → ((associate scan bssid c).is_associated ≡ true) × ((associate scan bssid c).bssid ≡ bssid)
unfolding refresh_associate_freq
associate-decides none bssid c = (refl, refl)
associate-decides (some results) bssid c = (refl, refl)

handle-Decides :
    (scan : Option (List NativeScanResult)) (kind : MlmeKind) (event : MlmeEvent) (c : Client)
    → Decides kind event (handle_mlme_event scan kind event c)
unfolding handle_mlme_event
handle-Decides scan on_connect event c = elim (Bool-cases (succeeded event)) [
  | inl e ↦ rw e (associate-decides scan event.bssid c)
  | inr e ↦ rw e (refl, refl)
]
handle-Decides scan on_associate event c = elim (Bool-cases (succeeded event)) [
  | inl e ↦ rw e (associate-decides scan event.bssid c)
  | inr e ↦ rw e (refl, refl)
]
handle-Decides scan on_roam event c = associate-decides scan event.bssid c
handle-Decides scan on_disconnect event c = (refl, refl)
handle-Decides scan on_disassociate event c = (refl, refl)

-- After any sequence of MLME events the last one alone decides whether the interface is associated and
-- with which BSSID: that of the event after a success or a roam, and all zeros otherwise.
pub handle_all-Decides :
    (rs : List Report) (last : Report) (c : Client)
    → Decides last.kind last.event (handle_all (rs ++ last ∷ []) c)
unfolding handle_all
handle_all-Decides [] last c = handle-Decides last.scan last.kind last.event c
handle_all-Decides (r ∷ rs) last c =
    handle_all-Decides rs last (handle_mlme_event r.scan r.kind r.event c)
