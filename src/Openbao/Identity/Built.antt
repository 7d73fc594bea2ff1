-- ===== src/Openbao/Identity/Built.antt =====
-- pkg/secrets/types/config.go: the URLs that buildURL gives, and results that are no errors.
use go_mod_edge_utils.Prelude.{
  ◌≡◌, refl, ◌≢◌, inl, inr, String, false, Option, none, some, ◌==◌, string_eq, ne_of_test,
  Bool-cases,
}
use go_mod_edge_utils.Rest.Requests.{Try, done, raised, ◌>>=◌}
use go_mod_edge_utils.Openbao.Identity.{
  SecretConfig, url_of, parsed, build_url, is_zero, as_foreign,
}

pub bound_done :
    {E A B : Type 0} (t : Try E A) (f : A → Try E B) {b : B}
    → (t >>= f) ≡ done b
    → (a : A) × (t ≡ done a) × (f a ≡ done b)
bound_done (done a) f h = (a, refl, h)
bound_done (raised e) f h = cc

pub foreign_done :
    {A : Type 0} (frame : String) (t : Try String A) {a : A}
    → as_foreign frame t ≡ done a
    → t ≡ done a
foreign_done frame (done a) h = cc
foreign_done frame (raised t) h = cc

-- The settings from which a URL can be built.
abbrev pub IsConfigured : SecretConfig → Type 0
IsConfigured c = (c.protocol ≢ "") × (c.host ≢ "") × (is_zero c.port ≡ false)

parsed_done : (url : String) (o : Option String) {u : String} → parsed url o ≡ done u → u ≡ url
parsed_done url none h = cc
parsed_done url (some e) h = cc

pub build_url_done :
    (parse_error : String → Option String) (c : SecretConfig) (path : String) {u : String}
    → build_url parse_error c path ≡ done u
    → IsConfigured c × (u ≡ url_of c path)
unfolding build_url
build_url_done parse_error c path h = elim (Bool-cases (c.protocol == "")) [
  | inl a ↦ cc (h, a)
  | inr a ↦ elim (Bool-cases (c.host == "")) [
    | inl b ↦ cc (h, a, b)
    | inr b ↦ elim (Bool-cases (is_zero c.port)) [
      | inl z ↦ cc (h, a, b, z)
      | inr z ↦ (
        (ne_of_test _ _ a, ne_of_test _ _ b, z),
        parsed_done (url_of c path) (parse_error (url_of c path)) (rw (a, b, z) at h),
      )
    ]
  ]
]
