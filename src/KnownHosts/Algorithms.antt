-- ===== src/KnownHosts/Algorithms.antt =====
-- src/known_hosts.rs: `algorithms_from_openssh_name` and `pinned_algorithms`, the host-key
-- algorithms that the client offers to a known host.
pub mod Offer
use owlzops_mapper.Common.{
  Text, codes, not, List, [], ◌∷◌, ◌++◌, Option, none, some, ◌==◌, text_eq, Eq, eq_of_discrete,
  if◌then◌else◌, filter, contains,
}
use owlzops_mapper.Utils.Sanitize.{sanitize_for_log}
use owlzops_mapper.KnownHosts.Load.{KnownHostEntry}

pub data HashAlg : Type 0 where
  sha256 sha512 : HashAlg

pub data EcdsaCurve : Type 0 where
  nist_p256 nist_p384 nist_p521 : EcdsaCurve

pub data Algorithm : Type 0 where
  ed25519 : Algorithm
  rsa : Option HashAlg → Algorithm
  ecdsa : EcdsaCurve → Algorithm

pub Algorithm-discrete : Discrete Algorithm
Algorithm-discrete = hlevel

instance abbrev pub algorithm_eq : Eq Algorithm
algorithm_eq = eq_of_discrete Algorithm-discrete

unfoldable pub algorithms_from_openssh_name : Text → List Algorithm × Option Text
algorithms_from_openssh_name name =
    if name == codes "ssh-ed25519"
    then (ed25519 ∷ [], none)
    else if name == codes "ssh-rsa"
    then (rsa (some sha512) ∷ rsa (some sha256) ∷ rsa none ∷ [], none)
    else if name == codes "ecdsa-sha2-nistp256"
    then (ecdsa nist_p256 ∷ [], none)
    else if name == codes "ecdsa-sha2-nistp384"
    then (ecdsa nist_p384 ∷ [], none)
    else if name == codes "ecdsa-sha2-nistp521"
    then (ecdsa nist_p521 ∷ [], none)
    else ([], some name)

-- `if !out.contains(&alg) { out.push(alg) }` for each algorithm of an entry
unfoldable pub push_new : List Algorithm → List Algorithm → List Algorithm
push_new out [] = out
push_new out (alg ∷ algs) = push_new (if contains out alg then out else out ++ alg ∷ []) algs

unfoldable pub unmapped_note : Text → Text → Text
unmapped_note host unknown =
    codes "known_hosts: unmapped host key type `"
    ++ (sanitize_for_log unknown ++ (codes "` for host " ++ (host ++ codes " — offer not pinned")))

abbrev pub push_note : Text → Option Text → List Text → List Text
push_note host none notes = notes
push_note host (some unknown) notes = notes ++ unmapped_note host unknown ∷ []

unfoldable pub pin_entries :
    Text → List KnownHostEntry → List Algorithm → List Text → List Algorithm × List Text
unfolding push_new
pin_entries host [] out notes = (out, notes)
pin_entries host (e ∷ es) out notes =
    let (algs, unknown) = algorithms_from_openssh_name e.key_type in
    pin_entries host es (push_new out algs) (push_note host unknown notes)

unfoldable pub pinned_algorithms :
    Text → List KnownHostEntry → List Text → List Algorithm × List Text
unfolding pin_entries
pinned_algorithms host entries notes =
    pin_entries host (filter (λ (e : KnownHostEntry). not e.revoked) entries) [] notes
