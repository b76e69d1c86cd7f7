-- ===== src/Mqtt/Started.antt =====
-- What `mqtt_init` gives to the client library, and what its result says.
use industrial_edge_monitor.Base.{
  ℕ, ◌≡◌, refl, sym, arith, Bool, true, false, not, Option, none, some, List, EspErr, is_ok,
  if_split, not-false, c_str,
}
use industrial_edge_monitor.Config.{DeviceConfig}
use industrial_edge_monitor.Mqtt.Client.{
  Client, ClientConfig, Creation, create_client, mqtt_init, ready_error,
  mqtt_configuration_is_valid,
}

module _ (parses : List ℕ → Bool) where
  -- A client's configuration with the broker, the certificate and the user of a valid configuration
  -- of the device, which does not skip the check of the broker's name.
  pub record IsSecured (d : DeviceConfig) (g : ClientConfig) : Type 0 where
    pub valid : mqtt_configuration_is_valid parses (some d) ≡ true
    pub name_checked : g.skip_cert_common_name_check ≡ false
    pub certificate : g.certificate ≡ c_str d.mqtt_ca_certificate
    pub broker : g.uri ≡ c_str d.mqtt_broker_uri
    pub username : g.username ≡ c_str d.mqtt_username
    pub password : g.password ≡ c_str d.mqtt_password

  pub data IsGiven (config : Option DeviceConfig) : Option ClientConfig → Type 0 where
    nothing : IsGiven config none
    secured :
        {d : DeviceConfig} {g : ClientConfig}
        → config ≡ some d
        → IsSecured d g
        → IsGiven config (some g)

  -- A start of a client that had none: there is a client afterwards just if the result is ESP_OK, it
  -- is as connected as before, and what the library is given is secured.
  pub record IsStart (config : Option DeviceConfig) (c : Client)
      (r : (EspErr × Client) × Option ClientConfig) : Type 0 where
    pub handle : is_ok (r.0.0) ≡ (r.0.1).has_client
    pub connection : (r.0.1).connected ≡ c.connected
    pub given : IsGiven config (r.1)

  create_client-IsStart :
      (made : Creation) (d : DeviceConfig) (g : ClientConfig) (c before : Client)
      → c.has_client ≡ false
      → c.connected ≡ before.connected
      → IsSecured d g
      → IsStart (some d) before (create_client made g c)
  unfolding create_client
  create_client-IsStart made d g c before absent same s =
      let P : (EspErr × Client) × Option ClientConfig → Type 0 = IsStart (some d) before in
      let grouped : Client = record c { has_group = made.group; connected_bit = false } in
      if_split P (not made.group)
        (λ e. record { handle = sym absent; connection = same; given = nothing })
        (λ e.
          if_split P (not made.client)
            (λ e₁. record { handle = refl; connection = same; given = secured refl s })
            (λ e₁.
              if_split P (not (is_ok made.registered))
                (λ e₂. record { handle = ground arith; connection = same; given = secured refl s })
                (λ e₂.
                  if_split P (not (is_ok made.started))
                    (λ e₃. record {
                      handle = ground arith;
                      connection = same;
                      given = secured refl s;
                    })
                    (λ e₃. record { handle = refl; connection = same; given = secured refl s }))))

  -- A first `mqtt_init`, whatever the calls in it return: there is a client afterwards just if the
  -- result is ESP_OK, the client is not connected by it, and what the library is given, if it is given
  -- anything, has the broker, the certificate and the user of the configuration, which is valid, and
  -- does not skip the check of the broker's name.
  pub mqtt_init-IsStart :
      (prefix : List ℕ) (made : Creation) (config : Option DeviceConfig) (c : Client)
      → c.has_client ≡ false
      → IsStart config c (mqtt_init parses prefix made config c)
  unfolding mqtt_init
  mqtt_init-IsStart prefix made none c absent = record {
    handle = sym absent;
    connection = refl;
    given = nothing;
  }
  mqtt_init-IsStart prefix made (some d) c absent =
      let P : (EspErr × Client) × Option ClientConfig → Type 0 = IsStart (some d) c in
      let ready : Client = record c { last_error = ready_error made.mutex c.last_error } in
      if_split P (not (mqtt_configuration_is_valid parses (some d)))
        (λ e. record { handle = sym absent; connection = refl; given = nothing })
        (λ e.
          if_split P (not ready.last_error.has_mutex)
            (λ e₁. record { handle = sym absent; connection = refl; given = nothing })
            (λ e₁. create_client-IsStart made d _ _ c absent refl (record {
              valid = not-false _ e;
              name_checked = refl;
              certificate = refl;
              broker = refl;
              username = refl;
              password = refl;
            })))
