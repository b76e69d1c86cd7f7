-- ===== src/Provisioning/Service/Parsing/Accepted.antt =====
-- What a candidate that `parse_configuration` accepts is.
use industrial_edge_monitor.Base.{
  ℕ, ◌+◌, ◌≡◌, ◌∙◌, subst, refl, ap, Bool, true, false, not, Option, none, some, arith, List, u32,
  codes, is_ok, esp_ok, EspErr, if_split,
}
use industrial_edge_monitor.Config.{DeviceConfig}
use industrial_edge_monitor.Config.Validate.{validate}
use industrial_edge_monitor.Config.Validate.Accepted.{IsAccepted, validate_iff}
use industrial_edge_monitor.Provisioning.Service.Requests.{CJson, object_item}
use industrial_edge_monitor.Provisioning.Service.Parsing.{
  copy_json_string, source_of, name_in, parse_fields, parse_maintenance, parse_machine,
  parse_configuration,
}
use industrial_edge_monitor.Provisioning.Service.Parsing.Fields.{
  Result, ok, refused, ◌>>=◌, or_refused, guard, finish_parse, base_configuration, has_active,
}

-- What holds of a result if there is one.
data Ensures {A : Type 0} (P : A → Type 0) : Result A → Type 0 where
  holds : {a : A} → P a → Ensures P (ok a)
  rejected : {e : List ℕ} → Ensures P (refused e)

Ensures-ok : {A : Type 0} {P : A → Type 0} {r : Result A} {a : A} → Ensures P r → r ≡ ok a → P a
Ensures-ok {P = P} (holds h) e = subst P (cc) h
Ensures-ok rejected e = cc

Ensures-bind :
    {A B : Type 0} {P : A → Type 0} {Q : B → Type 0} {m : Result A} {f : A → Result B}
    → Ensures P m
    → ((a : A) → P a → Ensures Q (f a))
    → Ensures Q (m >>= f)
unfolding ◌>>=◌
Ensures-bind (holds {a} h) k = k a h
Ensures-bind rejected k = rejected

-- A step whose value does not matter.
any_value :
    {A B : Type 0} {Q : B → Type 0} (o : Option A) (e : List ℕ) {f : A → Result B}
    → ((a : A) → Ensures Q (f a))
    → Ensures Q (or_refused o e >>= f)
unfolding ◌>>=◌ or_refused
any_value none e k = rejected
any_value (some a) e k = k a

-- A step whose value is used.
value_of :
    {A B : Type 0} {Q : B → Type 0} (o : Option A) (e : List ℕ) {f : A → Result B}
    → ((a : A) → o ≡ some a → Ensures Q (f a))
    → Ensures Q (or_refused o e >>= f)
unfolding ◌>>=◌ or_refused
value_of none e k = rejected
value_of (some a) e k = k a refl

guard-Ensures : (b : Bool) (e : List ℕ) → Ensures (λ _. b ≡ true) (guard b e)
unfolding guard
guard-Ensures true e = holds refl
guard-Ensures false e = rejected

Ensures-map :
    {A : Type 0} {P Q : A → Type 0} {r : Result A}
    → Ensures P r
    → ((a : A) → P a → Q a)
    → Ensures Q r
Ensures-map (holds h) k = holds (k _ h)
Ensures-map rejected k = rejected

is_ok-eq : (e : EspErr) → is_ok e ≡ true → e ≡ esp_ok
is_ok-eq e h = ground arith

-- The parts of a configuration that only the strings' step and the first one set.
record Keeps (before after : DeviceConfig) : Type 0 where
  revision : after.revision ≡ before.revision
  wifi_password : after.wifi_password ≡ before.wifi_password
  mqtt_password : after.mqtt_password ≡ before.mqtt_password
  certificate : after.mqtt_ca_certificate ≡ before.mqtt_ca_certificate

module _ {J : Type 0} (json : CJson J) (root : Option J) where
  maintenance-Keeps : (c : DeviceConfig) → Ensures (Keeps c) (parse_maintenance json root c)
  unfolding parse_maintenance
  maintenance-Keeps c = any_value _ _ (λ enabled. any_value _ _ (λ window. any_value _ _ (λ session.
      holds (record {
        revision = refl;
        wifi_password = refl;
        mqtt_password = refl;
        certificate = refl;
      }))))

  machine-Keeps : (c : DeviceConfig) → Ensures (Keeps c) (parse_machine json root c)
  unfolding parse_machine
  machine-Keeps c = any_value _ _ (λ provider. any_value _ _ (λ gpio. any_value _ _ (λ level.
      any_value _ _ (λ pull. holds (record {
        revision = refl;
        wifi_password = refl;
        mqtt_password = refl;
        certificate = refl;
      })))))

  -- Where the MQTT settings stand, and the names of two of them there.
  abbrev pub mqtt_source : Option J
  mqtt_source = source_of json (object_item json root (codes "mqtt")) root

  abbrev pub password_name : List ℕ
  password_name =
      name_in json (object_item json root (codes "mqtt")) (codes "password") (codes "mqtt_password")

  abbrev pub certificate_name : List ℕ
  certificate_name =
      name_in json (object_item json root (codes "mqtt")) (codes "ca_certificate")
        (codes "mqtt_ca_certificate")

  -- What becomes of the secrets of a configuration in use: one that the object does not give stays.
  pub record Retains (before after : DeviceConfig) : Type 0 where
    pub wifi_password :
        object_item json root (codes "wifi_password") ≡ none
        → after.wifi_password ≡ before.wifi_password
    pub mqtt_password :
        object_item json mqtt_source password_name ≡ none
        → after.mqtt_password ≡ before.mqtt_password
    pub certificate :
        object_item json mqtt_source certificate_name ≡ none
        → after.mqtt_ca_certificate ≡ before.mqtt_ca_certificate

  kept :
      (from : Option J) (name target : List ℕ) (size : ℕ) (active : Bool) {value : List ℕ}
      → copy_json_string json from name target size (not active) ≡ some value
      → active ≡ true
      → object_item json from name ≡ none
      → value ≡ target
  unfolding copy_json_string
  kept from name target size true h e missing = cc
  kept from name target size false h e missing = cc

  record FieldsDone (active : Bool) (before after : DeviceConfig) : Type 0 where
    revision : after.revision ≡ before.revision
    secrets : active ≡ true → Retains before after

  fields-Done :
      (active : Bool) (c : DeviceConfig)
      → Ensures (FieldsDone active c) (parse_fields json root active c)
  unfolding parse_fields
  fields-Done active c = any_value _ _ (λ device_id. any_value _ _ (λ ssid.
      value_of _ _ (λ wifi wifi_e. any_value _ _ (λ uri. any_value _ _ (λ username.
        value_of _ _ (λ password password_e. any_value _ _ (λ client_id.
          value_of _ _ (λ certificate certificate_e. any_value _ _ (λ interval. holds (record {
            revision = refl;
            secrets = λ e. record {
              wifi_password = kept _ _ _ _ active wifi_e e;
              mqtt_password = kept _ _ _ _ active password_e e;
              certificate = kept _ _ _ _ active certificate_e e;
            };
          }))))))))))

-- The revision of a candidate: one more than that of the configuration in use, or 1.
abbrev pub next_revision : Option DeviceConfig → ℕ
next_revision none = 1
next_revision (some active) = u32 (active.revision + 1)

module _ {J : Type 0} (json : CJson J) (parses : List ℕ → Bool) (root : Option J) where
  pub record IsCandidate (current : Option DeviceConfig) (c : DeviceConfig) : Type 0 where
    pub accepted : IsAccepted parses c
    pub revision : c.revision ≡ next_revision current
    pub secrets : (active : DeviceConfig) → current ≡ some active → Retains json root active c

  finish-Accepted :
      (c : DeviceConfig) → Ensures (λ c'. (c' ≡ c) × IsAccepted parses c') (finish_parse parses c)
  unfolding finish_parse
  finish-Accepted c =
      if_split (Ensures _) (is_ok (validate parses (some c) 160).0)
        (λ e. holds (refl, (validate_iff parses c 160).0.0 (is_ok-eq _ e))) (λ e. rejected)

  base_revision :
      (current : Option DeviceConfig)
      → (base_configuration current).revision ≡ next_revision current
  base_revision none = refl
  base_revision (some active) = refl

  secrets_of :
      (current : Option DeviceConfig) (version : ℕ) {after : DeviceConfig}
      → FieldsDone json root
          (has_active current)
          (record (base_configuration current) { schema_version = version })
          after
      → (active : DeviceConfig) → current ≡ some active
      → Retains json root active after
  secrets_of none version done active e = cc
  secrets_of (some before) version done active e =
      let same : before ≡ active = cc in
      let kept = done.secrets refl in
      record {
        wifi_password = λ m. kept.wifi_password m ∙ ap (λ c. c.wifi_password) same;
        mqtt_password = λ m. kept.mqtt_password m ∙ ap (λ c. c.mqtt_password) same;
        certificate = λ m. kept.certificate m ∙ ap (λ c. c.mqtt_ca_certificate) same;
      }

  candidate_of :
      (current : Option DeviceConfig) (version : ℕ) {c1 c2 c3 c : DeviceConfig}
      → FieldsDone json root
          (has_active current)
          (record (base_configuration current) { schema_version = version })
          c1
      → Keeps c1 c2
      → Keeps c2 c3
      → (c ≡ c3) × IsAccepted parses c
      → IsCandidate current c
  candidate_of current version done k2 k3 (same, accepted) = record {
    accepted = accepted;
    revision =
        ap (λ c. c.revision) same
        ∙ k3.revision
        ∙ k2.revision
        ∙ done.revision
        ∙ base_revision current;
    secrets = λ active e.
        let kept = secrets_of current version done active e in
        record {
          wifi_password = λ m.
              ap (λ c. c.wifi_password) same
              ∙ k3.wifi_password
              ∙ k2.wifi_password
              ∙ kept.wifi_password m;
          mqtt_password = λ m.
              ap (λ c. c.mqtt_password) same
              ∙ k3.mqtt_password
              ∙ k2.mqtt_password
              ∙ kept.mqtt_password m;
          certificate = λ m.
              ap (λ c. c.mqtt_ca_certificate) same
              ∙ k3.certificate
              ∙ k2.certificate
              ∙ kept.certificate m;
        };
  }

  parse-IsCandidate :
      (current : Option DeviceConfig)
      → Ensures (IsCandidate current) (parse_configuration json parses current root)
  unfolding parse_configuration
  parse-IsCandidate current = any_value _ _ (λ version. Ensures-bind (guard-Ensures _ _) (λ u g.
      Ensures-bind (fields-Done json root (has_active current) _) (λ c1 done.
        Ensures-bind (maintenance-Keeps json root c1) (λ c2 kept2.
          Ensures-bind (machine-Keeps json root c2) (λ c3 kept3.
            Ensures-map (finish-Accepted c3)
              (λ c accepted. candidate_of current version done kept2 kept3 accepted))))))

  -- A configuration that is parsed from a request's object is one that validation accepts, its
  -- revision is one more than that of the configuration in use (1 where there is none, and wrapping
  -- around at 32 bits), and each of the Wi-Fi password, the MQTT password and the certificate that
  -- the object leaves out is the one in use.
  pub parse_configuration-IsCandidate :
      (current : Option DeviceConfig) (c : DeviceConfig)
      → parse_configuration json parses current root ≡ ok c
      → IsCandidate current c
  parse_configuration-IsCandidate current c h = Ensures-ok (parse-IsCandidate current) h
