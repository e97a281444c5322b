-- ===== src/Decoder/Ccip/Contracts.antt =====
-- The contracts of CCIP by chain, of internal/decoder/ccip/decoder.go. An address is the number that
-- `common.HexToAddress` reads in its text.
use akave_crosschain_archive.Base.{ℕ, Bool, false, ◌||◌, List, [], ◌∷◌, ◌++◌, ◌==◌, if◌then◌else◌}

-- `OnRampAddresses`
abbrev pub on_ramp_addresses : List (ℕ × List ℕ)
on_ramp_addresses =
    (
      1,
      0x925228d7b82d883dde340a55fe8e6da56244a22c ∷ 0xe35e9842fceaca96570b734083f4a58e8f7c5f2a
          ∷ 0xf1e3a5842eeef51f2967b3f05d45dd4f4205ff40 ∷ 0xb0464d2098a8d5c46843d19c0c22d4e0e26edece
          ∷ 0xe2d68fc254d6e8b676b8cfa0d44d4d03e4fdb5a8 ∷ 0xe63b54f93dcead1a7a03a80a48b67a2ff97ae5ad
          ∷ [],
    )
    ∷ (
      42161,
      0xce11020d56e5fdbfe46d9fc3021641ffbbb5adee ∷ 0x67761742ac8a21ec4d76ca18cbd701e5a6f3bef3
          ∷ 0x2a86b4f6c56afb06a3b1d7fb7ae36c0c68bd5d3e ∷ 0x8096a61399e9e9c7e26f3ca5b73d7b2dbb1fecc
          ∷ [],
    )
    ∷ (
      10,
      0x15f52286c0ff1d7a7ddbc9e300dd66628d46d4e6 ∷ 0x4ef1a59ac8af33d2d5ca5ae4aed3c9e7fdf6e08a
          ∷ 0xd1e12b64e77aca0cde3e5a23f7ef8b10ff0f5a7d ∷ [],
    )
    ∷ (
      8453,
      0x3e8cad61bc0c13f9cabb5f59b4c8fabcdb7bdd0 ∷ 0x6b90ec3c44a5a50b5e9eb2fd3d1b49d7c3a23be4
          ∷ 0x1cd7e2f39914a24e4561700cb3c4ad69b558bcdb ∷ [],
    )
    ∷ (137, 0x2f9b70b6f12b2b8b97da5e6e10a4c5c4ad3e7d1a ∷ [])
    ∷ (43114, 0x67e8a4f52b42d61e4cc34f5b7bea6501d3f4d1b0 ∷ [])
    ∷ []

-- `OffRampAddresses`
abbrev pub off_ramp_addresses : List (ℕ × List ℕ)
off_ramp_addresses =
    (
      1,
      0xefc4a18af59398ff23bfe7325f2401ad44286f4d ∷ 0xa3d2127f85041729fec05be0e4edd3e0b6af6a63
          ∷ 0x26d23450e8660f7b8bf64b78bfa08f12e1b0f9eb ∷ 0x58622a80c6dddc072f2b527a99be1d0934eb2b50
          ∷ 0xc4b4be0be7cae8099d0fa9b3e2eb34e6dd0c52f2 ∷ 0xcc62d2aa0be9c0a8dbd67ff6e97d44a5d07b04ca
          ∷ [],
    )
    ∷ (
      42161,
      0x91e46cc5590a4b9182e47f40006140a7077dec31 ∷ 0xb0c0b0e2b0fe9cb041ebe9e7b03afd1e7ff73de5
          ∷ 0x9e32088f3c1a5eb38d32d1ec6ba0bcbf499dc9ac ∷ [],
    )
    ∷ (
      10,
      0x33f54de59419570e33de8a4a3c6e5d5dfbc3be6 ∷ 0xa0c1740154590c15b1f56ed85e01b2e6e14e7def
          ∷ 0x1e2f8bcfb87f3d6ab77e30a2ad7bb1de8571af8e ∷ [],
    )
    ∷ (
      8453,
      0xf1c2f9b7da6a85ecf1c342a3c9a4e7a9b9c1e44f ∷ 0x3b36b32b0e8daf43e4d3e607c72e1f17f3e70b08
          ∷ 0x4d56e0d5b8f44cda92c6e1ac1de9cbde99f0ab60 ∷ [],
    )
    ∷ (137, 0x0a1a6b6f2e5f2b7d3b8c1e0e9a7e4d9c2b3a8f1a ∷ [])
    ∷ (43114, 0x7b2a1b9e7dd3c5c9b4b2e4f0e6e8d3c8b9f4e2a1 ∷ [])
    ∷ []

-- The value of a key, nil where there is none.
abbrev pub addresses_of : ℕ → List (ℕ × List ℕ) → List ℕ
addresses_of chain [] = []
addresses_of chain ((c, addresses) ∷ rest) =
    if c == chain then addresses else addresses_of chain rest

-- `_, ok := seen[addr]`
unfoldable pub is_seen : ℕ → List ℕ → Bool
is_seen a [] = false
is_seen a (b ∷ bs) = a == b || is_seen a bs

-- A loop of `ContractAddresses`: `seen` holds what `addrs` holds.
unfoldable pub add_unseen : List ℕ → List ℕ → List ℕ
add_unseen addrs [] = addrs
add_unseen addrs (a ∷ rest) = add_unseen (if is_seen a addrs then addrs else addrs ++ (a ∷ [])) rest

-- `ContractAddresses`
unfoldable pub contract_addresses : ℕ → List ℕ
contract_addresses chain =
    add_unseen (add_unseen [] (addresses_of chain on_ramp_addresses))
      (addresses_of chain off_ramp_addresses)
