-- ===== src/RateLimit/Client.antt =====
-- Whom the middleware holds a request against, and what becomes of the request.
use Prim.Native.String
use cryptiq.Shared.{
  String, true, false, Option, some, List, [], ◌∷◌, ◌++◌, ◌==◌, string_eq, ◌≡◌, arith, ◌⊎◌, pair_eq,
  ap, refl, ◌∙◌,
}
use cryptiq.Shared.Each.{Each}
use cryptiq.Shared.Text.{strip, has_char}
use cryptiq.Shared.Parts.{split}
use cryptiq.Shared.Parts.Split.{split-append, split_whole}
use cryptiq.RateLimit.Middleware.{Scope, last_part, forwarded_for, peer, client_ip, bucket_for}

last_part-append :
    (ps : List String) (q : String)
    → (strip q == "") ≡ false
    → last_part (ps ++ q ∷ []) ≡ some (strip q)
unfolding last_part
last_part-append [] q h = ground arith
last_part-append (p ∷ ps) q h = ground (arith, last_part-append ps q h)

-- The address that a header's value ends with.
forwarded_for-value :
    (value seeded ip : String) (headers : List (String × String))
    → has_char b',' ip ≡ false
    → (strip ip == "") ≡ false
    → value ≡ String.◌++◌ seeded (String.◌∷◌ "," ip)
    → forwarded_for (("x-forwarded-for", value) ∷ headers) ≡ some (strip ip)
unfolding forwarded_for
forwarded_for-value value seeded ip headers plain filled e = ground (
  arith,
  split-append "," seeded ip,
  split_whole b',' ip plain,
  last_part-append (split b',' seeded) ip filled,
)

-- Other headers are passed over.
forwarded_for-append :
    (before after : List (String × String))
    → Each before (λ header. (header.0 == "x-forwarded-for") ≡ false)
    → forwarded_for (before ++ after) ≡ forwarded_for after
unfolding Each forwarded_for
forwarded_for-append [] after h = refl
forwarded_for-append ((name, value) ∷ before) after (h, k) =
    rw h (forwarded_for-append before after k)

-- Behind a trusted proxy a client is the address that the proxy wrote last, whatever text the client
-- had put in front of it in the first header `x-forwarded-for`, and whatever other headers stand before
-- that one or follow it.
pub client_ip_rightmost :
    (kind : String) (method path host : Option String) (value : String)
    (before headers : List (String × String)) (seeded ip : String)
    → Each before (λ header. (header.0 == "x-forwarded-for") ≡ false)
    → has_char b',' ip ≡ false
    → (strip ip == "") ≡ false
    → value ≡ String.◌++◌ seeded (String.◌∷◌ "," ip)
    → client_ip true (record {
      kind = kind;
      method = method;
      path = path;
      headers = before ++ ("x-forwarded-for", value) ∷ headers;
      client = host;
    })
      ≡ strip ip
unfolding client_ip
client_ip_rightmost kind method path host value before headers seeded ip others plain filled e =
    let found =
      forwarded_for-append before (("x-forwarded-for", value) ∷ headers) others
      ∙ forwarded_for-value value seeded ip headers plain filled e in
    rw found refl

-- Without a trusted proxy no header counts.
pub client_ip_untrusted :
    (s t : Scope) → s.client ≡ t.client → client_ip false s ≡ client_ip false t
unfolding client_ip
client_ip_untrusted s t e = ap peer e

pub bucket_for-cases :
    (method path : String)
    → (bucket_for method path ≡ "expensive")
      ⊎ ((bucket_for method path ≡ "write") ⊎ (bucket_for method path ≡ "default"))
unfolding bucket_for
bucket_for-cases method path = ground arith
