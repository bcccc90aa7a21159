-- ===== src/App/Address/Base.antt =====
-- What `extractBaseAddress` returns.
use activemq_artemis_operato.Base.{
  String, ◌≡◌, false, inl, inr, Bool-cases, contains, contains-before,
}
use activemq_artemis_operato.App.Address.{extract_base_address, fqqn_separator}

-- A base address holds no separator, whatever the address.
pub contains-extract_base_address :
    (address : String) → contains (extract_base_address address) fqqn_separator ≡ false
unfolding extract_base_address
contains-extract_base_address address = elim (Bool-cases (contains address fqqn_separator)) [
  | inl cut ↦ rw cut (contains-before address ":" ":")
  | inr whole ↦ rw whole whole
]
