-- ===== src/Session/Nodes.antt =====
-- Descriptions of nodes: include/cassandra/node_description.hpp. The members of a JSON value are read by
-- userver: each is an argument, `none` if it is not there. `As` throws on a member of another type, which is
-- not modelled.
use cassandra_driver.Base.{
  ℕ, Bool, true, false, not, ◌&&◌, ◌||◌, if◌then◌else◌, Option, none, some, codes,
}
use cassandra_driver.Base.Result.{Result, ok, throws, runtime_error}
use cassandra_driver.Io.{RawBuffer}

pub record PasswordAuthentificator : Type 0 where
  pub username : RawBuffer
  pub password : RawBuffer

pub record NodeDescription : Type 0 where
  pub use_ssl : Bool
  pub use_compression : Bool
  pub allow_all : Bool
  pub password_authetificator : Option PasswordAuthentificator
  pub contact_point : RawBuffer
  pub port : ℕ

pub record JsonNode : Type 0 where
  pub use_ssl : Option Bool
  pub use_compression : Option Bool
  pub allow_all : Option Bool
  pub auth : Option PasswordAuthentificator
  pub contact_point : Option RawBuffer
  pub port : Option ℕ

-- `As<T>(default)`
abbrev pub or_default : {A : Type 0} → Option A → A → A
or_default none d = d
or_default (some a) d = a

abbrev pub has_value : {A : Type 0} → Option A → Bool
has_value none = false
has_value (some a) = true

-- The description with these credentials.
abbrev described : JsonNode → Option PasswordAuthentificator → NodeDescription
described j creds = record {
  use_ssl = or_default j.use_ssl false;
  use_compression = or_default j.use_compression false;
  allow_all = or_default j.allow_all true;
  password_authetificator = creds;
  contact_point = or_default j.contact_point (codes "127.0.0.1");
  port = or_default j.port 9042;
}

-- `Parse(value, To<NodeDescription>)`; its SecdistError is a std::runtime_error.
unfoldable pub parse_node : JsonNode → Result NodeDescription
parse_node j =
    let allow_all = or_default j.allow_all true in
    let creds = has_value j.auth in
    if not allow_all && creds
    then ok (described j j.auth)
    else if (allow_all && creds) || (not allow_all && not creds)
    then throws runtime_error
    else ok (described j none)
