-- ===== src/Scoring/Rules/Plain/Listeners.antt =====
-- src/scoring.rs, `evaluate`: the findings on listeners.
use owlzops_mapper.Common.{refl, nat_eq}
use owlzops_mapper.Report.{Facts}
use owlzops_mapper.Scoring.Rules.Plain.{plain, AllPlain, push_if-AllPlain, is_plain}
use owlzops_mapper.Scoring.Rules.Listeners.{listener_tiers, listeners, reachable_implants}
use owlzops_mapper.Utils.Provenance.{Host, ListenerTiers, classify_listeners}

listener_tiers-AllPlain : (t : ListenerTiers) → AllPlain (listener_tiers t)
unfolding listener_tiers is_plain
listener_tiers-AllPlain t = search plain

pub listeners-AllPlain : (host : Host) (r : Facts) → AllPlain (listeners host r)
unfolding listeners
listeners-AllPlain host r =
    listener_tiers-AllPlain (classify_listeners host r.network.listening_ports)

pub reachable_implants-AllPlain : (r : Facts) → AllPlain (reachable_implants r)
unfolding reachable_implants is_plain
reachable_implants-AllPlain r = push_if-AllPlain _ _ refl
