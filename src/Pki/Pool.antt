-- ===== src/Pki/Pool.antt =====
-- pkg/pki/pool.go. A pool is of crypto/x509, and a parameter.

-- `NewCertPoolFromCA`, from `x509.NewCertPool()` and the method `AddCert`
unfoldable pub new_cert_pool_from_ca :
    {Certificate Pool : Type 0} → Pool → (Certificate → Pool → Pool) → Certificate → Pool
new_cert_pool_from_ca new_cert_pool add_cert ca = add_cert ca new_cert_pool
