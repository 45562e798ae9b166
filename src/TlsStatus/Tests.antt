-- ===== src/TlsStatus/Tests.antt =====
-- The status of a service at a concrete certificate.
use tmpmail_fyi.Common.{codes, ◌≡◌, refl, ◌↔◌, false, some, []}
use tmpmail_fyi.TlsStatus.{
  Leaf, CertificateLibrary, tls_service_status, IsServed, tls_service_status-IsServed, mode_manual,
  state_ready,
}

abbrev one_leaf : Leaf
one_leaf = record { not_before = 10; not_after = 20; issuer = codes "CA"; dns_names = []; raw = [] }

abbrev one_certificate : CertificateLibrary
one_certificate = record { parse = λ der. some one_leaf; fingerprint = λ raw. codes "0" }

tls_service_status-IsServed_example :
    ((tls_service_status one_certificate 15 mode_manual
        (codes "mail.test")
        (some (codes "der"))
        false).state
      ≡ state_ready)
    ↔ IsServed one_certificate 15 mode_manual (some (codes "der"))
tls_service_status-IsServed_example =
    tls_service_status-IsServed one_certificate 15 mode_manual (codes "mail.test")
      (some (codes "der")) false

ready_at_start :
    (tls_service_status one_certificate 10 mode_manual [] (some []) false).state ≡ state_ready
unfolding tls_service_status
ready_at_start = refl
