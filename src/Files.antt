-- ===== src/Files.antt =====
-- v2/pkg/tcr/tls.go, and json.go where it reads files. The file system, the unmarshalling of JSON
-- and the parsing of certificates are parameters.
use turbocookedrabbit.Config.{RabbitSeasoning}
use turbocookedrabbit.Topology.{TopologyConfig}
use turbocookedrabbit.Letter.{Bytes}
use turbocookedrabbit.Codec.{Result, ok, err, ◌>>=◌}
use turbocookedrabbit.Amqp.{Error}
use turbocookedrabbit.Base.{String, List, Option, none, some, [], ◌∷◌}

-- What ReadFile and LoadX509KeyPair give, what Unmarshal leaves in a new value, with its error, and
-- the error of an Unmarshal into nil. A certificate is its bytes.
pub record Disk (Interface : Type 0) : Type 0 where
  pub read_file : String → Result Bytes
  pub load_key_pair : String → String → Result Bytes
  pub certificates : Bytes → List Bytes
  pub unmarshal_config : Bytes → RabbitSeasoning × Option Error
  pub unmarshal_topology : Bytes → TopologyConfig × Option Error
  pub unmarshal_nil : Bytes → Option Error
  pub nil_interface : Interface

-- What CreateTLSConfig fills of tls.Config.
pub record TlsCertificates : Type 0 where
  pub root_cas : List Bytes
  pub certificates : List Bytes

module _ {Interface : Type 0} (disk : Disk Interface) where
  -- CreateTLSConfig. Whether the root certificates could be parsed is not looked at.
  unfoldable pub create_tls_config : String → String → Result TlsCertificates
  create_tls_config pem_location local_location = do
    ca ← disk.read_file pem_location
    cert ← disk.load_key_pair local_location local_location
    ok (record { root_cas = disk.certificates ca; certificates = cert ∷ [] })

  -- The configuration is handed back with the error of the unmarshalling.
  unfoldable pub convert_json_file_to_config : String → Option RabbitSeasoning × Option Error
  convert_json_file_to_config file_name_path = elim (disk.read_file file_name_path) [
    | err e ↦ (none, some e)
    | ok bytes ↦ (some (disk.unmarshal_config bytes).0, (disk.unmarshal_config bytes).1)
  ]

  unfoldable pub convert_json_file_to_topology_config :
      String → Option TopologyConfig × Option Error
  convert_json_file_to_topology_config file_name_path = elim (disk.read_file file_name_path) [
    | err e ↦ (none, some e)
    | ok bytes ↦ (some (disk.unmarshal_topology bytes).0, (disk.unmarshal_topology bytes).1)
  ]

  -- The interface that is handed back stays nil: Unmarshal is given its value.
  unfoldable pub read_json_file_to_interface : String → Option Interface × Option Error
  read_json_file_to_interface file_name_path = elim (disk.read_file file_name_path) [
    | err e ↦ (none, some e)
    | ok bytes ↦ (some disk.nil_interface, disk.unmarshal_nil bytes)
  ]
