-- ===== src/Portmap/Upnp.antt =====
-- The UPnP exchange of p2p/wireguard-p2p/linux/portmap.py, from `_header_value` to `try_upnp`. The
-- sockets, the HTTP client, the XML parser and `urljoin` are arguments.
pub mod Discover
pub mod Xml
use wireguard_p2p.Portmap.Upnp.Discover.{Received, discover_rounds}
use wireguard_p2p.Portmap.Upnp.Xml.{Element, iter, xml_local, tag_of, text_of, find_in}
use wireguard_p2p.Base.{
  ℕ, Bool, true, false, not, ◌&&◌, ◌||◌, List, [], ◌∷◌, ◌++◌, Option, none, some, leb, ◌==◌,
  if◌then◌else◌,
}
use wireguard_p2p.Base.Lists.{any}
use wireguard_p2p.Base.Text.{Text, text, text_eq, is_empty, lower, break_at, rbreak_at}
use wireguard_p2p.Base.Text.Decimal.{show, strip}
use wireguard_p2p.Result.{Error, Result, ok, err, value_error, runtime_error, os_error, bind}
use wireguard_p2p.Portmap.{Mapping, public_ipv4}
use wireguard_p2p.Portmap.Bytes.{Packet}

pub record SoapRequest : Type 0 where
  pub control_url : Text
  pub soap_action : Text
  pub body : Text

-- What the world does for an attempt: the rounds of the discovery, a document at an address, the
-- join of two addresses, a call and the document in its answer.
pub record Igd : Type 0 where
  pub bound : Result (Unit {0})
  pub deadline : ℕ
  pub rounds : List (ℕ × Received)
  pub describe : Text → Result Element
  pub urljoin : Text → Text → Text
  pub post : SoapRequest → Result Packet
  pub fromstring : Packet → Result Element

abbrev discover_upnp_locations : Igd → Result (List Text)
unfolding discover_rounds bind
discover_upnp_locations igd = bind igd.bound λ _. discover_rounds igd.deadline [] igd.rounds

abbrev joined : Igd → Text → Option (Text × Text) → Option (Text × Text)
joined igd location none = none
joined igd location (some (service_type, control)) =
    some (service_type, igd.urljoin location control)

-- The type of the first usable service, and the address of its control.
find_upnp_service : Igd → Text → Result (Option (Text × Text))
unfolding find_in iter bind
find_upnp_service igd location =
    bind (igd.describe location) λ root. ok (joined igd location (find_in (iter root)))

arguments_xml : List (Text × Text) → Text
arguments_xml [] = []
arguments_xml ((name, value) ∷ rest) =
    text "<"
    ++ (name ++ (text ">" ++ (value ++ (text "</" ++ (name ++ (text ">" ++ arguments_xml rest))))))

soap_body : Text → Text → List (Text × Text) → Text
unfolding arguments_xml
soap_body service_type action arguments =
    text "<?xml version=\"1.0\"?>"
    ++ (text "<s:Envelope xmlns:s=\"http://schemas.xmlsoap.org/soap/envelope/\" "
        ++ (text "s:encodingStyle=\"http://schemas.xmlsoap.org/soap/encoding/\">"
            ++ (text "<s:Body><u:"
                ++ (action
                    ++ (text " xmlns:u=\""
                        ++ (service_type
                            ++ (text "\">"
                                ++ (arguments_xml arguments
                                    ++ (text "</u:"
                                        ++ (action ++ text "></s:Body></s:Envelope>"))))))))))

soap_call : Igd → Text → Text → Text → List (Text × Text) → Result Packet
unfolding soap_body
soap_call igd control_url service_type action arguments = igd.post (record {
  control_url = control_url;
  soap_action = text "\"" ++ (service_type ++ (text "#" ++ (action ++ text "\"")));
  body = soap_body service_type action arguments;
})

address_in : List Element → Result Text
unfolding rbreak_at text_eq strip public_ipv4
address_in [] = err value_error
address_in (e ∷ es) =
    let rest = address_in es in
    if text_eq (xml_local (tag_of e)) (text "NewExternalIPAddress") && public_ipv4 (text_of e)
    then ok (text_of e)
    else rest

upnp_external_ip : Igd → Text → Text → Result Text
unfolding soap_call address_in iter bind
upnp_external_ip igd control_url service_type =
    bind (soap_call igd control_url service_type (text "GetExternalIPAddress") [])
      λ payload. bind (igd.fromstring payload) λ root. address_in (iter root)

abbrev mapping_arguments : Text → ℕ → ℕ → List (Text × Text)
unfolding show
mapping_arguments local_ip internal_port lifetime =
    (text "NewRemoteHost", [])
    ∷ (text "NewExternalPort", show internal_port)
    ∷ (text "NewProtocol", text "UDP")
    ∷ (text "NewInternalPort", show internal_port)
    ∷ (text "NewInternalClient", local_ip)
    ∷ (text "NewEnabled", text "1")
    ∷ (text "NewPortMappingDescription", text "WireGuard-P2P")
    ∷ (text "NewLeaseDuration", show lifetime)
    ∷ []

-- One location: `none` where it has no usable service.
try_location : Igd → Text → ℕ → ℕ → Text → Result (Option Mapping)
unfolding find_upnp_service soap_call upnp_external_ip show bind
try_location igd local_ip internal_port lifetime location =
    bind (find_upnp_service igd location) λ service. elim service [
      | none ↦ ok none
      | some found ↦
          bind
            (soap_call igd found.1 found.0 (text "AddPortMapping")
              (mapping_arguments local_ip internal_port lifetime))
            λ _. bind (upnp_external_ip igd found.1 found.0) λ external_ip. ok (
              some (record {
                external_ip = external_ip;
                external_port = internal_port;
                lifetime = lifetime;
              }))
    ]

abbrev last_or : Option Error → Error
last_or none = runtime_error
last_or (some e) = e

-- The first location that grants a mapping; else the last error.
unfoldable pub try_locations : Igd → Text → ℕ → ℕ → Option Error → List Text → Result Mapping
unfolding try_location
try_locations igd local_ip internal_port lifetime last_error [] = err (last_or last_error)
try_locations igd local_ip internal_port lifetime last_error (location ∷ locations) =
    elim (try_location igd local_ip internal_port lifetime location) [
      | ok (some mapping) ↦ ok mapping
      | ok none ↦ try_locations igd local_ip internal_port lifetime last_error locations
      | err e ↦ try_locations igd local_ip internal_port lifetime (some e) locations
    ]

unfoldable pub try_upnp : Igd → Text → ℕ → ℕ → Result Mapping
unfolding try_locations discover_rounds bind
try_upnp igd local_ip internal_port lifetime =
    bind (discover_upnp_locations igd)
      λ locations. try_locations igd local_ip internal_port lifetime none locations
