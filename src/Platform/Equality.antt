-- ===== src/Platform/Equality.antt =====
-- Platforms are the same exactly where `same_platform` says so.
use grid_server.Base.{
  ℕ, zero, suc, ◌≡◌, refl, sym, ap, ◌∙◌, ◌==◌, ◌&&◌, ==_iff, Bool, true, false, ==_refl, arith,
}
use grid_server.Platform.{
  wasm32, x86, x86_64, arm, aarch64, loongarch64, m68k, csky, mips, mips64, powerpc, powerpc64,
  riscv64, s390x, sparc64, unknown_arch, unix, windows_family, unknown_family, linux, macos, ios,
  freebsd, dragonfly, netbsd, openbsd, solaris, android, windows, unknown_os, Arch, Family, Os,
  Platform, arch_index, family_index, os_index, same_platform,
}

abbrev arch_at : ℕ → Arch
arch_at zero = wasm32
arch_at (suc zero) = x86
arch_at (suc (suc zero)) = x86_64
arch_at (suc (suc (suc zero))) = arm
arch_at (suc (suc (suc (suc zero)))) = aarch64
arch_at (suc (suc (suc (suc (suc zero))))) = loongarch64
arch_at (suc (suc (suc (suc (suc (suc zero)))))) = m68k
arch_at (suc (suc (suc (suc (suc (suc (suc zero))))))) = csky
arch_at (suc (suc (suc (suc (suc (suc (suc (suc zero)))))))) = mips
arch_at (suc (suc (suc (suc (suc (suc (suc (suc (suc zero))))))))) = mips64
arch_at (suc (suc (suc (suc (suc (suc (suc (suc (suc (suc zero)))))))))) = powerpc
arch_at (suc (suc (suc (suc (suc (suc (suc (suc (suc (suc (suc zero))))))))))) = powerpc64
arch_at (suc (suc (suc (suc (suc (suc (suc (suc (suc (suc (suc (suc zero)))))))))))) = riscv64
arch_at (suc (suc (suc (suc (suc (suc (suc (suc (suc (suc (suc (suc (suc zero))))))))))))) = s390x
arch_at (suc (suc (suc (suc (suc (suc (suc (suc (suc (suc (suc (suc (suc (suc zero)))))))))))))) =
    sparc64
arch_at
      (suc (suc (suc (suc (suc (suc (suc (suc (suc (suc (suc (suc (suc (suc (suc n))))))))))))))) =
    unknown_arch

arch_at-arch_index : (a : Arch) → arch_at (arch_index a) ≡ a
arch_at-arch_index wasm32 = refl
arch_at-arch_index x86 = refl
arch_at-arch_index x86_64 = refl
arch_at-arch_index arm = refl
arch_at-arch_index aarch64 = refl
arch_at-arch_index loongarch64 = refl
arch_at-arch_index m68k = refl
arch_at-arch_index csky = refl
arch_at-arch_index mips = refl
arch_at-arch_index mips64 = refl
arch_at-arch_index powerpc = refl
arch_at-arch_index powerpc64 = refl
arch_at-arch_index riscv64 = refl
arch_at-arch_index s390x = refl
arch_at-arch_index sparc64 = refl
arch_at-arch_index unknown_arch = refl

abbrev family_at : ℕ → Family
family_at zero = unix
family_at (suc zero) = windows_family
family_at (suc (suc n)) = unknown_family

family_at-family_index : (a : Family) → family_at (family_index a) ≡ a
family_at-family_index unix = refl
family_at-family_index windows_family = refl
family_at-family_index unknown_family = refl

abbrev os_at : ℕ → Os
os_at zero = linux
os_at (suc zero) = macos
os_at (suc (suc zero)) = ios
os_at (suc (suc (suc zero))) = freebsd
os_at (suc (suc (suc (suc zero)))) = dragonfly
os_at (suc (suc (suc (suc (suc zero))))) = netbsd
os_at (suc (suc (suc (suc (suc (suc zero)))))) = openbsd
os_at (suc (suc (suc (suc (suc (suc (suc zero))))))) = solaris
os_at (suc (suc (suc (suc (suc (suc (suc (suc zero)))))))) = android
os_at (suc (suc (suc (suc (suc (suc (suc (suc (suc zero))))))))) = windows
os_at (suc (suc (suc (suc (suc (suc (suc (suc (suc (suc n)))))))))) = unknown_os

os_at-os_index : (a : Os) → os_at (os_index a) ≡ a
os_at-os_index linux = refl
os_at-os_index macos = refl
os_at-os_index ios = refl
os_at-os_index freebsd = refl
os_at-os_index dragonfly = refl
os_at-os_index netbsd = refl
os_at-os_index openbsd = refl
os_at-os_index solaris = refl
os_at-os_index android = refl
os_at-os_index windows = refl
os_at-os_index unknown_os = refl

arch_of : (a b : Arch) → (arch_index a == arch_index b) ≡ true → a ≡ b
arch_of a b e = sym (arch_at-arch_index a) ∙ ap arch_at ((==_iff _ _).0 e) ∙ arch_at-arch_index b

family_of : (a b : Family) → (family_index a == family_index b) ≡ true → a ≡ b
family_of a b e =
    sym (family_at-family_index a) ∙ ap family_at ((==_iff _ _).0 e) ∙ family_at-family_index b

os_of : (a b : Os) → (os_index a == os_index b) ≡ true → a ≡ b
os_of a b e = sym (os_at-os_index a) ∙ ap os_at ((==_iff _ _).0 e) ∙ os_at-os_index b

pub and_true : (p q : Bool) → (p && q) ≡ true → (p ≡ true) × (q ≡ true)
and_true true q h = (refl, h)
and_true false q h = absurd (cc h)

platform_of : Arch → Family → Os → Platform
platform_of a f o = record { arch = a; family = f; os = o }

pub same_platform-eq : (a b : Platform) → same_platform a b ≡ true → a ≡ b
unfolding same_platform platform_of
same_platform-eq a b e =
    let (xy, z) = and_true _ (os_index a.os == os_index b.os) e in
    let (x, y) = and_true (arch_index a.arch == arch_index b.arch) _ xy in
    ap (λ x. platform_of x a.family a.os) (arch_of a.arch b.arch x)
    ∙ ap (λ y. platform_of b.arch y a.os) (family_of a.family b.family y)
    ∙ ap (platform_of b.arch b.family) (os_of a.os b.os z)

pub same_platform_refl : (a : Platform) → same_platform a a ≡ true
unfolding same_platform
same_platform_refl a =
    ground
      (arith, ==_refl (arch_index a.arch), ==_refl (family_index a.family), ==_refl (os_index a.os))
