-- ===== src/Tests/Accounts.antt =====
-- The sessions, the login and the signing keys at concrete inputs, in the environment of the example.
use oidc_demo.Base.{true, ◌≡◌, refl, none, [], ◌∷◌, keep, length, ◌≤◌, arith}
use oidc_demo.Crypto.Argon2id
use oidc_demo.Base
use oidc_demo.Model
use oidc_demo.Model.{Session, LoginInput, LoginOutput, SignKey}
use oidc_demo.Model.Time
use oidc_demo.World as Act
use oidc_demo.World.{World, ok}
use oidc_demo.Http
use oidc_demo.Http.{json, empty}
use oidc_demo.Management.Key
use oidc_demo.Management.Key.{deactivate_key}
use oidc_demo.Server.Keys.{deactivation_leaves_a_key}
use oidc_demo.Crypto
use oidc_demo.Jwt.Keys
use oidc_demo.Jwt.Keys.{rotate_key}
use oidc_demo.Jwt.Rotation.{rotation_leaves_one_key}
use oidc_demo.Store.Tenants
use oidc_demo.Store.Users
use oidc_demo.Store.Sessions
use oidc_demo.Store.SignKeys
use oidc_demo.Auth.Service
use oidc_demo.Auth.Service.{login, validate_session}
use oidc_demo.Auth.Soundness.{IsCurrent, LogsIn, validate_session-IsCurrent, login_is_sound}
use oidc_demo.Tests.InMemory.{in_memory-GormLaws}
use oidc_demo.Tests.Example.{env, config, start, alice, alice_session, first_key}

session_is_valid :
    validate_session env 6 start ≡ (ok alice_session, (validate_session env 6 start).1)
unfolding Service.validate_session Sessions.find_by_id Model.is_valid Act.pure Act.raise
    Act.raise_if Act.or_raise Act.lift Act.ignore Act.map_err Act.time_now Act.rand_read
    Act.new_uuid Act.jwt_parse Act.first Act.find Act.first_desc Act.find_desc Act.updates
    Act.create Act.◌>>=◌ Act.attempt Http.respond
session_is_valid = refl

validate_session-IsCurrent_example :
    IsCurrent env 6 start (validate_session env 6 start).1 alice_session
validate_session-IsCurrent_example =
    validate_session-IsCurrent env in_memory-GormLaws 6 start alice_session
      (validate_session env 6 start).1 session_is_valid

abbrev alice_input : LoginInput
alice_input = record {
  tenant_code = "acme";
  login_id = "alice";
  password = "pass";
  ip_address = "10.0.0.1";
  user_agent = "browser";
}

abbrev alice_output : LoginOutput
alice_output = record { session_id = 23; user = alice }

alice_logs_in : login env alice_input start ≡ (ok alice_output, (login env alice_input start).1)
unfolding Service.login Service.check_credentials Service.find_password_hash Tenants.find_by_code
    Users.find_by_tenant_and_login_id Users.update_last_login_at Sessions.create_session
    Time.duration Act.pure Act.raise Act.raise_if Act.or_raise Act.lift Act.ignore Act.map_err
    Act.time_now Act.rand_read Act.new_uuid Act.jwt_parse Act.first Act.find Act.first_desc
    Act.find_desc Act.updates Act.create Act.◌>>=◌ Act.attempt Http.respond Argon2id.verify_password
    Base.split
alice_logs_in = refl

login_is_sound_example : LogsIn env alice_input start alice_output (login env alice_input start).1
login_is_sound_example =
    login_is_sound env in_memory-GormLaws alice_input start alice_output
      (login env alice_input start).1 alice_logs_in

abbrev second_key : SignKey
second_key = record {
  id = 26;
  kid = "19-18181818";
  algorithm = "RS256";
  public_key = "16";
  private_key_ref = "17171717171717171717171716";
  active = true;
  created_at = 26;
  rotated_at = none;
}

key_is_rotated :
    rotate_key env config.enc_key start ≡ (ok second_key, (rotate_key env config.enc_key start).1)
unfolding Keys.rotate_key Keys.generate_and_save_key Act.rsa_key Crypto.encrypt
    SignKeys.deactivate_all_active SignKeys.create_key Act.pure Act.raise Act.raise_if Act.or_raise
    Act.lift Act.ignore Act.map_err Act.time_now Act.rand_read Act.new_uuid Act.jwt_parse Act.first
    Act.find Act.first_desc Act.find_desc Act.updates Act.create Act.◌>>=◌ Act.attempt Http.respond
key_is_rotated = refl

rotation_leaves_one_key_example :
    keep (λ (k : SignKey). k.active) (rotate_key env config.enc_key start).1.sign_keys
    ≡ second_key ∷ []
rotation_leaves_one_key_example =
    rotation_leaves_one_key env config.enc_key in_memory-GormLaws start second_key
      (rotate_key env config.enc_key start).1 key_is_rotated

abbrev two_keys : World
two_keys = record start { sign_keys = second_key ∷ first_key ∷ [] }

key_is_deactivated :
    deactivate_key env "k1" two_keys ≡ (ok (json 204 empty), (deactivate_key env "k1" two_keys).1)
unfolding Key.deactivate_key SignKeys.find_by_kid SignKeys.find_all_active SignKeys.deactivate
    Act.pure Act.raise Act.raise_if Act.or_raise Act.lift Act.ignore Act.map_err Act.time_now
    Act.rand_read Act.new_uuid Act.jwt_parse Act.first Act.find Act.first_desc Act.find_desc
    Act.updates Act.create Act.◌>>=◌ Act.attempt Http.respond
key_is_deactivated = refl

deactivation_leaves_a_key_example :
    1 ≤ length (keep (λ (k : SignKey). k.active) (deactivate_key env "k1" two_keys).1.sign_keys)
deactivation_leaves_a_key_example =
    deactivation_leaves_a_key env in_memory-GormLaws "k1" two_keys (json 204 empty)
      (deactivate_key env "k1" two_keys).1 (omega arith) key_is_deactivated
