-- ===== src/Portmap/Upnp/Xml.antt =====
-- Parsed XML documents, as far as `_find_upnp_service` of p2p/wireguard-p2p/linux/portmap.py reads them.
use wireguard_p2p.Base.{
  Bool, not, ◌&&◌, ◌||◌, List, [], ◌∷◌, ◌++◌, Option, none, some, if◌then◌else◌,
}
use wireguard_p2p.Base.Text.{Text, text, text_eq, is_empty, rbreak_at}
use wireguard_p2p.Base.Text.Decimal.{strip}
use wireguard_p2p.Portmap.Upnp.Discover.{starts_with}

-- `_xml_local(tag)`
abbrev pub xml_local : Text → Text
unfolding rbreak_at
xml_local tag = elim (rbreak_at b'}' tag) [ none ↦ tag | some (l, r) ↦ r ]

-- An element of a parsed document: tag, text and children.
mutual
  pub data Element : Type 0 where
    element : Text → Text → Elements → Element

  pub data Elements : Type 0 where
    childless : Elements
    child : Element → Elements → Elements

unfoldable mutual
  -- `root.iter()`: the element itself first, then below each child in turn.
  pub iter : Element → List Element
  iter (element tag content children) = element tag content children ∷ iter_all children

  pub iter_all : Elements → List Element
  iter_all childless = []
  iter_all (child e es) = iter e ++ iter_all es

abbrev pub tag_of : Element → Text
tag_of (element tag content children) = tag

abbrev pub text_of : Element → Text
unfolding strip
text_of (element tag content children) = strip content

abbrev pub children_of : Element → Elements
children_of (element tag content children) = children

-- `values.get(name, "")`: the last child with that local name.
unfoldable pub value_in : Text → Text → Elements → Text
unfolding rbreak_at text_eq strip
value_in name found childless = found
value_in name found (child e es) =
    value_in name (if text_eq (xml_local (tag_of e)) name then text_of e else found) es

-- `needle in s`
unfoldable pub contains : Text → Text → Bool
unfolding starts_with
contains needle [] = starts_with needle []
contains needle (c ∷ s) = starts_with needle (c ∷ s) || contains needle s

abbrev pub is_wan_service : Text → Bool
unfolding contains
is_wan_service t = contains (text "WANIPConnection") t || contains (text "WANPPPConnection") t

abbrev pub service_type_of : Element → Text
unfolding value_in
service_type_of e = value_in (text "serviceType") [] (children_of e)

abbrev pub control_of : Element → Text
unfolding value_in
control_of e = value_in (text "controlURL") [] (children_of e)

abbrev pub is_service : Element → Bool
unfolding rbreak_at text_eq
is_service e =
    text_eq (xml_local (tag_of e)) (text "service")
    && is_wan_service (service_type_of e)
    && not (is_empty (control_of e))

unfoldable pub find_in : List Element → Option (Text × Text)
unfolding value_in contains rbreak_at text_eq
find_in [] = none
find_in (e ∷ es) =
    let rest = find_in es in if is_service e then some (service_type_of e, control_of e) else rest
