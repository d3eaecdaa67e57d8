-- ===== src/Scoring/Rules/Plain/Processes.antt =====
-- src/scoring.rs, `evaluate`: the findings on processes.
use owlzops_mapper.Common.{refl}
use owlzops_mapper.Report.{Facts}
use owlzops_mapper.Scoring.Rules.Plain.{AllPlain, push_if-AllPlain, is_plain}
use owlzops_mapper.Scoring.Rules.Processes.{
  known_malware_running, fileless, fileless_self, fileless_privileged, mimics, mount_masking,
  reverse_shells,
}

pub known_malware_running-AllPlain : (r : Facts) → AllPlain (known_malware_running r)
unfolding known_malware_running is_plain
known_malware_running-AllPlain r = push_if-AllPlain _ _ refl

pub fileless-AllPlain : (r : Facts) → AllPlain (fileless r)
unfolding fileless is_plain
fileless-AllPlain r = push_if-AllPlain _ _ refl

pub fileless_self-AllPlain : (r : Facts) → AllPlain (fileless_self r)
unfolding fileless_self is_plain
fileless_self-AllPlain r = push_if-AllPlain _ _ refl

pub fileless_privileged-AllPlain : (r : Facts) → AllPlain (fileless_privileged r)
unfolding fileless_privileged is_plain
fileless_privileged-AllPlain r = push_if-AllPlain _ _ refl

pub mimics-AllPlain : (r : Facts) → AllPlain (mimics r)
unfolding mimics is_plain
mimics-AllPlain r = push_if-AllPlain _ _ refl

pub mount_masking-AllPlain : (r : Facts) → AllPlain (mount_masking r)
unfolding mount_masking is_plain
mount_masking-AllPlain r = push_if-AllPlain _ _ refl

pub reverse_shells-AllPlain : (r : Facts) → AllPlain (reverse_shells r)
unfolding reverse_shells is_plain
reverse_shells-AllPlain r = push_if-AllPlain _ _ refl
