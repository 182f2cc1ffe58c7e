-- ===== src/Jar/Tests.antt =====
-- src/runtime/jar.c on a small archive.
use openyanase_kernel.Base.{ℕ, ◌≡◌, refl, List, [], ◌∷◌, get_or, inl, arith, some}
use openyanase_kernel.Initrd.{Memory, found}
use openyanase_kernel.Jar.Pool.{parse_constant_pool}
use openyanase_kernel.Jar.Constants.{
  Constant, text, method, number, long, encode_all, fill, parse_constant_pool-fill,
}
use openyanase_kernel.Runtime.Machine.{CpEntry, other}
use openyanase_kernel.Jar.Archive.{Member, IsZip, lookup}

-- A member "m" of three bytes, then zeros.
abbrev bytes : List ℕ
bytes =
    0x50 ∷ 0x4b ∷ 0x03 ∷ 0x04 ∷ 20 ∷ 0 ∷ 0 ∷ 0 ∷ 0 ∷ 0 ∷ 0 ∷ 0 ∷ 0 ∷ 0 ∷ 0 ∷ 0 ∷ 0 ∷ 0 ∷ 3 ∷ 0 ∷ 0
    ∷ 0 ∷ 3 ∷ 0 ∷ 0 ∷ 0 ∷ 1 ∷ 0 ∷ 0 ∷ 0 ∷ b'm' ∷ 1 ∷ 2 ∷ 3 ∷ []

abbrev archive : Memory
archive q = get_or bytes q 0

abbrev stored : Member
stored = record { name = b'm' ∷ []; extra = 0; method = 0; packed = 3; size = 3 }

archive-IsZip : IsZip archive 200 0 (stored ∷ [])
archive-IsZip = (omega arith, omega arith, refl, refl, refl, refl, refl, refl, (refl, tt), inl refl)

lookup_m : lookup 0 (b'm' ∷ []) (stored ∷ []) ≡ found 31 3
unfolding lookup
lookup_m = refl

abbrev constants : List Constant
constants = long 0 0 0 1 ∷ text (b'A' ∷ []) ∷ method 5 6 ∷ number 100000 ∷ []

abbrev class_file : Memory
class_file q = get_or (encode_all constants) q 0

abbrev empty : ℕ → CpEntry
empty i = other 0

pool_read :
    parse_constant_pool 5 class_file 6 empty ≡ some (23, fill class_file 1 0 empty constants)
pool_read =
    parse_constant_pool-fill class_file empty constants
      ((
        refl,
        (
          refl,
          (
            refl,
            (
              refl,
              (
                refl,
                (
                  refl,
                  (
                    refl,
                    (
                      refl,
                      (
                        refl,
                        (
                          refl,
                          (
                            refl,
                            (
                              refl,
                              (
                                refl,
                                (
                                  refl,
                                  (
                                    refl,
                                    (
                                      refl,
                                      (refl, (refl, (refl, (refl, (refl, (refl, (refl, tt))))))),
                                    ),
                                  ),
                                ),
                              ),
                            ),
                          ),
                        ),
                      ),
                    ),
                  ),
                ),
              ),
            ),
          ),
        ),
      ))
      (omega arith) (tt, (omega arith, ((omega arith, omega arith), (omega arith, tt))))
      (omega arith)
