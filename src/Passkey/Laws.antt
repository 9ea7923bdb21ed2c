-- ===== src/Passkey/Laws.antt =====
-- What a click on the register button comes to.
use caslink.Prelude.{sym, ◌∙◌}
use caslink.Prelude.{All, map}
use caslink.Prelude.{
  ℕ, Text, codes, true, false, List, [], ◌∷◌, ◌≡◌, ◌≢◌, ◌⊎◌, inl, inr, refl, arith, Option, none,
  some,
}
use caslink.Base64.{buffer_encode, buffer_decode}
use caslink.Base64.Bits.{IsBytes}
use caslink.Base64.RoundTrip.{buffer_decode-buffer_encode}
use caslink.Passkey.{
  Outcome, resolved, rejected, ◌>>=◌, Descriptor, Options, Body, Credential, World, check_body,
  decode_all, decode_exclude, decode_options, finish_body, name_or_default, new_credential,
  register_chain, Status, success, danger, waiting_view, show_result, on_click,
}

-- A chain that succeeds, step by step: the server said ok twice, and the authenticator made a
-- credential for options whose texts decode.
pub record Succeeds (w : World) (name : Text) : Type 0 where
  pub opening : Body (Options Text)
  pub opts : Options (List ℕ)
  pub cred : Credential
  pub closing : Body (Unit {0})
  pub begun : w.begin_register ≡ resolved opening
  pub begun_ok : opening.is_ok ≡ true
  pub read : decode_options w.atob_message opening.payload ≡ resolved opts
  pub created : w.create opts ≡ resolved cred
  pub finished : w.finish_register name (finish_body cred) ≡ resolved closing
  pub finished_ok : closing.is_ok ≡ true

abbrev pub map_option {ℓ κ} : {A : Type ℓ} {B : Type κ} → (A → B) → Option A → Option B
map_option f none = none
map_option f (some a) = some (f a)

abbrev pub AllSome {ℓ κ} : {A : Type ℓ} → (A → Type κ) → Option A → Type κ
AllSome P none = Unit
AllSome P (some a) = P a

>>=-eq-resolved {ℓ κ} :
    {A : Type ℓ} {B : Type κ} (promise : Outcome A) (next : A → Outcome B) {last : B}
    → (promise >>= next) ≡ resolved last
    → (v : A) × (promise ≡ resolved v) × (next v ≡ resolved last)
>>=-eq-resolved (rejected message) next h = cc
>>=-eq-resolved (resolved v) next h = (v, refl, h)

check_body-eq-resolved {ℓ} :
    {A : Type ℓ} (b : Body A) (a : A)
    → check_body b ≡ resolved a
    → (b.is_ok ≡ true) × (b.payload ≡ a)
check_body-eq-resolved b a h = (ground arith, ground arith)

-- The chain gives a result exactly if every step succeeds.
Succeeds-of_chain :
    (w : World) (name : Text) → register_chain w name ≡ resolved tt → Succeeds w name
unfolding register_chain new_credential
Succeeds-of_chain w name h =
    let (cred, made, rest) = >>=-eq-resolved (new_credential w) _ h in
    let (closing, finished, last) =
      >>=-eq-resolved (w.finish_register name (finish_body cred)) _ rest in
    let (opening, begun, rest') = >>=-eq-resolved w.begin_register _ made in
    let (texts, checked, rest'') = >>=-eq-resolved (check_body opening) _ rest' in
    let (opts, read, created) = >>=-eq-resolved (decode_options w.atob_message texts) _ rest'' in
    let (begun_ok, same) = check_body-eq-resolved opening texts checked in
    record {
      opening = opening;
      opts = opts;
      cred = cred;
      closing = closing;
      begun = begun;
      begun_ok = begun_ok;
      read = rw same read;
      created = created;
      finished = finished;
      finished_ok = (check_body-eq-resolved closing tt last).0;
    }

chain_of-Succeeds :
    (w : World) (name : Text) → Succeeds w name → register_chain w name ≡ resolved tt
unfolding register_chain new_credential
chain_of-Succeeds w name s =
    rw (s.begun, s.begun_ok, s.read, s.created, s.finished, s.finished_ok) refl

Outcome-cases : (r : Outcome (Unit {0})) → (r ≡ resolved tt) ⊎ ((m : Text) × (r ≡ rejected m))
Outcome-cases (resolved tt) = inl refl
Outcome-cases (rejected m) = inr (m, refl)

abbrev pub HasDanger : Status → Type 0
HasDanger (danger m) = m ≢ []
HasDanger _ = ⊥

resolved-ne-rejected : (m : Text) → ◌≢◌ {A = Outcome (Unit {0})} (resolved tt) (rejected m)
resolved-ne-rejected m h = cc

show_result-HasDanger : (m : Text) → HasDanger (show_result (rejected m) waiting_view).status
unfolding show_result
show_result-HasDanger [] = λ e. cc
show_result-HasDanger (c ∷ m) = λ e. cc

-- Once the chain has settled, either every step succeeded, the button stays disabled, a success
-- message is shown and the page reloads; or some step failed, the button can be pressed again under
-- its old label, an error message that is not empty is shown, and the page stays.
pub on_click_lem :
    (w : World) (trimmed : Text)
    → let v = on_click w trimmed in
      let name = name_or_default trimmed in
      (Succeeds w name
        × (v.disabled ≡ true)
        × (v.reloads ≡ true)
        × ((m : Text) × (v.status ≡ success m)))
      ⊎ (¬ Succeeds w name
          × (v.disabled ≡ false)
          × (v.reloads ≡ false)
          × (v.label ≡ codes "Register Passkey")
          × HasDanger v.status)
unfolding on_click show_result
on_click_lem w trimmed = elim (Outcome-cases (register_chain w (name_or_default trimmed))) [
  | inl good ↦ inl (Succeeds-of_chain w _ good, rw good refl, rw good refl, rw good (_, refl))
  | inr (m, bad) ↦ inr (
    (λ s. resolved-ne-rejected m (sym (chain_of-Succeeds w _ s) ∙ bad)),
    rw bad refl,
    rw bad refl,
    rw bad refl,
    rw bad (show_result-HasDanger m),
  )
]

-- What the server sends for options of bytes: every text is URL-safe base64 without padding.
abbrev pub encode_descriptor : Descriptor (List ℕ) → Descriptor Text
encode_descriptor d = record { id = buffer_encode d.id; type = d.type; transports = d.transports }

abbrev pub encode_options : Options (List ℕ) → Options Text
encode_options o = record {
  challenge = buffer_encode o.challenge;
  user_id = buffer_encode o.user_id;
  exclude = map_option (map encode_descriptor) o.exclude;
}

-- All of its lists are lists of bytes.
abbrev pub HasBytes : Options (List ℕ) → Type 0
HasBytes o =
    IsBytes o.challenge × IsBytes o.user_id × AllSome (λ ds. All (λ d. IsBytes d.id) ds) o.exclude

decode_all-encode :
    (m : Text) (ds : List (Descriptor (List ℕ)))
    → All (λ d. IsBytes d.id) ds
    → decode_all m (map encode_descriptor ds) ≡ resolved ds
unfolding decode_all
decode_all-encode m [] h = refl
decode_all-encode m (d ∷ ds) h =
    rw (buffer_decode-buffer_encode d.id h.0, decode_all-encode m ds h.1)

decode_exclude-encode :
    (m : Text) (e : Option (List (Descriptor (List ℕ))))
    → AllSome (λ ds. All (λ d. IsBytes d.id) ds) e
    → decode_exclude m (map_option (map encode_descriptor) e) ≡ resolved e
decode_exclude-encode m none h = refl
decode_exclude-encode m (some ds) h = rw (decode_all-encode m ds h)

-- If challenge, user and excluded credentials are bytes, the authenticator is given exactly the
-- bytes that the server encoded.
pub decode_options-encode_options :
    (m : Text) (o : Options (List ℕ))
    → HasBytes o
    → decode_options m (encode_options o) ≡ resolved o
unfolding decode_options
decode_options-encode_options m o (hc, hu, he) = rw (
  buffer_decode-buffer_encode o.challenge hc,
  buffer_decode-buffer_encode o.user_id hu,
  decode_exclude-encode m o.exclude he,
)

-- If raw id, attestation and client data of a credential are bytes, decoding what is sent of them
-- gives them back.
pub buffer_decode-finish_body :
    (c : Credential)
    → IsBytes c.raw_id
    → IsBytes c.attestation_object
    → IsBytes c.client_data_json
    → let b = finish_body c in
      (buffer_decode b.raw_id ≡ some c.raw_id)
      × (buffer_decode b.attestation_object ≡ some c.attestation_object)
      × (buffer_decode b.client_data_json ≡ some c.client_data_json)
unfolding finish_body
buffer_decode-finish_body c hr ha hd = (
  buffer_decode-buffer_encode c.raw_id hr,
  buffer_decode-buffer_encode c.attestation_object ha,
  buffer_decode-buffer_encode c.client_data_json hd,
)
